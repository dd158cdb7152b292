-- ===== src/Dummy/Threads.antt =====
-- dummy_io of src/dummy/dummy-backend.c, and Hoard::put and Hoard::get of src/hoard.hpp, called by
-- several threads on one context at the same time: a scheduler picks whose step is next. Steps are each
-- access to the mutex, the size test of `put`, its resize, each element that it stores, and in `get` the
-- load of the address of the storage and that of the element. Only who has the mutex changes the vector,
-- so that finer steps of `put` would show others nothing new but the moment at which a resize frees the
-- old storage; a read through an address from before that is a fault. Accesses are taken as sequentially
-- consistent. A thread with another fault has no step.
pub mod Serial
pub mod Exclusive
pub mod Work
pub mod Sizes
pub mod Finish
pub mod Race
pub mod Storage
use cachercise.Base.{
  ℕ, zero, suc, ◌+◌, ◌-◌, ◌*◌, ◌<◌, ◌≤◌, ◌≡◌, ◌≢◌, Bool, true, false, Option, none, some, List, [],
  ◌∷◌, ltb, ◌==◌, if◌then◌else◌, length, get_elem?,
}
use cachercise.Base.Run.{Run, ok}
use cachercise.Common.{u64, write}
use cachercise.Hoard.{Hoard, resize, store, put}

-- The arguments of a call; `count` is in items, as `hoard_put` and `hoard_get` get it.
pub record Call : Type 0 where
  pub count : ℕ
  pub offset : ℕ
  pub scratch : List ℕ
  pub kind : ℕ

-- The context: its hoard, the storage of the vector, which has another number after a resize that moves
-- it, and the thread that has the mutex.
pub record Shared : Type 0 where
  pub hoard : Hoard
  pub storage : ℕ
  pub mutex : Option ℕ

-- Where a thread stands, with the local variables that are live there.
pub data Pc : Type 0 where
  waiting : Pc  -- start of `dummy_io`
  growing : Pc  -- the size test of `put`
  enlarging : Pc  -- before the resize of `put`
  copying : (i : ℕ) → Pc  -- the loop of `put`
  leaving : Pc  -- before ABT_mutex_unlock
  reading : (i : ℕ) (dest : List ℕ) → Pc  -- the loop of `get`
  loaded : (i : ℕ) (dest : List ℕ) (storage : ℕ) → Pc  -- between the two loads of `m_hoard[offset+i]`
  returned : (scratch : List ℕ) → Pc
  faulted : Pc  -- read from storage that has been freed

-- Between the return of ABT_mutex_lock and ABT_mutex_unlock.
abbrev pub critical : Pc → Bool
critical growing = true
critical enlarging = true
critical (copying i) = true
critical leaving = true
critical _ = false

-- The size test of `put`.
abbrev pub small : Call → Hoard → Bool
small a h = ltb (length h) (u64 (a.offset + a.count))

-- Its resize.
unfoldable pub enlarge : (max_size : ℕ) → Call → Hoard → Run Hoard
enlarge max_size a h = resize max_size (u64 ((length h + a.offset + a.count) * 2)) h

-- One step of the thread `t` with the arguments `a`.
pub data Move (max_size t : ℕ) (a : Call) (m : Shared) : Pc → Shared → Pc → Type 0 where
  lock :
      a.kind ≡ write
      → m.mutex ≡ none
      → Move max_size t a m waiting (record m { mutex = some t }) growing
  test : small a m.hoard ≡ true → Move max_size t a m growing m enlarging
  enough : small a m.hoard ≡ false → Move max_size t a m growing m (copying 0)
  resized :
      {h' : Hoard} (moved : Bool)
      → enlarge max_size a m.hoard ≡ ok h'
      → Move max_size t a m enlarging
          (record m { hoard = h'; storage = if moved then suc m.storage else m.storage })
          (copying 0)
  copy :
      {i v : ℕ} {h' : Hoard}
      → i < a.count
      → get_elem? a.scratch i ≡ some v
      → store m.hoard (u64 (a.offset + i)) v ≡ ok h'
      → Move max_size t a m (copying i) (record m { hoard = h' }) (copying (suc i))
  copied : {i : ℕ} → a.count ≤ i → Move max_size t a m (copying i) m leaving
  unlock : Move max_size t a m leaving (record m { mutex = none }) (returned a.scratch)
  begin_read : a.kind ≢ write → Move max_size t a m waiting m (reading 0 a.scratch)
  load :
      {i : ℕ} {dest : List ℕ}
      → i < a.count
      → Move max_size t a m (reading i dest) m (loaded i dest m.storage)
  fetch :
      {i v g : ℕ} {dest dest' : List ℕ}
      → g ≡ m.storage
      → get_elem? m.hoard (u64 (a.offset + i)) ≡ some v
      → store dest i v ≡ ok dest'
      → Move max_size t a m (loaded i dest g) m (reading (suc i) dest')
  freed :
      {i g : ℕ} {dest : List ℕ} → g ≢ m.storage → Move max_size t a m (loaded i dest g) m faulted
  fetched :
      {i : ℕ} {dest : List ℕ} → a.count ≤ i → Move max_size t a m (reading i dest) m (returned dest)

pub record System : Type 0 where
  pub mem : Shared
  pub pc : ℕ → Pc

abbrev pub update : (ℕ → Pc) → ℕ → Pc → ℕ → Pc
update pc t p u = if u == t then p else pc u

-- `n` threads, with their arguments, on a hoard that is `h` when they start.
module _ (max_size n : ℕ) (calls : ℕ → Call) where
  pub data Step (s : System) : System → Type 0 where
    pick :
        (t : ℕ) {m : Shared} {p : Pc}
        → t < n
        → Move max_size t (calls t) s.mem (s.pc t) m p
        → Step s (record { mem = m; pc = update s.pc t p })

  pub data Reach (h : Hoard) : System → Type 0 where
    start :
        Reach h
          (record { mem = record { hoard = h; storage = 0; mutex = none }; pc = λ t. waiting })
    later : {s s' : System} → Reach h s → Step s s' → Reach h s'

  abbrev pub member : ℕ → List ℕ → Bool
  member t [] = false
  member t (u ∷ us) = if u == t then true else member t us

  -- Whole puts, one after the other: by the threads of the list, newest first, each once.
  pub data Puts (h : Hoard) : List ℕ → Hoard → Type 0 where
    no_puts : Puts h [] h
    then_put :
        {ts : List ℕ} {h₁ h₂ : Hoard} (t ret : ℕ)
        → Puts h ts h₁
        → member t ts ≡ false
        → put max_size h₁ (calls t).scratch (calls t).count (calls t).offset ≡ ok (ret, h₂)
        → Puts h (t ∷ ts) h₂
