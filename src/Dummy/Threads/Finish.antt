-- ===== src/Dummy/Threads/Finish.antt =====
-- The threads can always go on until all have returned.
use cachercise.Base.{
  ℕ, zero, suc, ◌+◌, ◌*◌, ◌<◌, ◌≤◌, ◌≡◌, ◌≢◌, refl, ap, ◌∙◌, ◌⊎◌, Bool, true, false, none, some,
  List, [], ◌∷◌, arith, ◌==◌, length, get_elem?, set, Bool-cases, Option-cases, inl, inr,
}
use native.Mathlib.Decide.{ℕ_discrete, dec_lt}
use cachercise.Base.Run.{ok}
use cachercise.Common.{write, u64}
use cachercise.Hoard.{Hoard, store}
use cachercise.Dummy.Threads.{
  Call, Shared, Pc, enlarging, loaded, faulted, small, test, enough, load, waiting, growing,
  copying, leaving, reading, returned, critical, Move, lock, resized, copy, copied, unlock,
  begin_read, fetch, fetched, System, update, Step, pick, Reach, start, later, member, Puts,
}
use cachercise.Dummy.Threads.Exclusive.{Reach-Control, is_reading}
use cachercise.Dummy.Threads.Work.{work, Step-work}
use cachercise.Dummy.Threads.Sizes.{Suits, Roomy, Local, enlarge-size, Reach-Sized}
use cachercise.Dummy.Threads.Storage.{Alike, Held, Reach-Held}
use cachercise.Dummy.Threads.Serial.{threads-serial}

abbrev pub is_returned : Pc → Bool
is_returned (returned scratch) = true
is_returned _ = false

elem_at : (xs : List ℕ) (i : ℕ) → i < length xs → (v : ℕ) × (get_elem? xs i ≡ some v)
elem_at [] i l = absurd (omega arith)
elem_at (x ∷ xs) zero l = (x, refl)
elem_at (x ∷ xs) (suc i) l = elem_at xs i (omega arith)

store_at : (xs : List ℕ) (i v : ℕ) → i < length xs → store xs i v ≡ ok (set xs i v)
unfolding store
store_at xs i v l = ground arith

module _ (max_size top first : ℕ) (roomy : Roomy max_size top first) where
  abbrev Moves : (t : ℕ) → Call → Shared → Pc → Type 0
  Moves t a m p = (m' : Shared) × (p' : Pc) × Move max_size t a m p m' p'

  -- A thread that has not returned can move, if the mutex is free or the thread has it.
  can_move :
      (t : ℕ) (a : Call) (m : Shared) (p : Pc)
      → Suits top first a
      → length m.hoard ≤ 4 * top
      → first ≤ length m.hoard
      → Local (length m.hoard) a p
      → (critical p ≡ true → a.kind ≡ write)
      → (is_reading p ≡ true → a.kind ≢ write)
      → (critical p ≡ false → m.mutex ≡ none)
      → Held m.storage p
      → is_returned p ≡ false
      → Moves t a m p
  can_move t a m waiting s b k l w r f d n = elim (ℕ_discrete a.kind write) [
    | yes y ↦ (_, _, lock y (f refl))
    | no o ↦ (_, _, begin_read o)
  ]
  can_move t a m growing s b k l w r f d n = elim (Bool-cases (small a m.hoard)) [
    | inl y ↦ (_, _, test y)
    | inr o ↦ (_, _, enough o)
  ]
  can_move t a m enlarging s b k l w r f d n =
      let (h', run, b', l', o) = enlarge-size max_size top first roomy a m.hoard s (w refl) l in
      (_, _, resized true run)
  can_move t a m (copying i) s b k l w r f d n = elim (dec_lt i a.count) [
    | no o ↦ (_, _, copied (omega arith))
    | yes y ↦
        let (v, e) = elem_at a.scratch i (omega (arith, s.buffer)) in
        let at : u64 (a.offset + i) ≡ a.offset + i = omega (arith, roomy.room, roomy.addressable) in
        (_, _, copy y e (store_at m.hoard (u64 (a.offset + i)) v (omega (arith, at))))
  ]
  can_move t a m leaving s b k l w r f d n = (_, _, unlock)
  can_move t a m (reading i dest) s b k l w r f d n = elim (dec_lt i a.count) [
    | no o ↦ (_, _, fetched (omega arith))
    | yes y ↦ (_, _, load y)
  ]
  can_move t a m (loaded i dest g) s b k (y, l) w r f d n =
      let inside = s.reads (r refl) in
      let at : u64 (a.offset + i) ≡ a.offset + i = omega (arith, roomy.room, roomy.addressable) in
      let (v, e) = elem_at m.hoard (u64 (a.offset + i)) (omega (arith, at)) in
      (_, _, fetch d e (store_at dest i v (omega (arith, s.buffer))))
  can_move t a m (returned scratch) s b k l w r f d n = cc
  can_move t a m faulted s b k l w r f d n = absurd d

  module _ (n : ℕ) (calls : ℕ → Call) (alike : Alike calls)
      (suits : (t : ℕ) → Suits top first (calls t)) (h : Hoard) (fits : length h ≡ first) where
    -- Threads from `n` on never start.
    never_picked : {s : System} → Reach max_size n calls h s → (t : ℕ) → n ≤ t → s.pc t ≡ waiting
    never_picked start t l = refl
    never_picked (later r (pick u b mv)) t l =
        let other : (t == u) ≡ false = ground arith in rw other (never_picked r t l)

    can_step :
        (s : System)
        → Reach max_size n calls h s
        → (t : ℕ) → t < n
        → is_returned (s.pc t) ≡ false
        → (critical (s.pc t) ≡ false → s.mem.mutex ≡ none)
        → (s' : System) × Step max_size n calls s s'
    can_step s r t l d f =
        let c = Reach-Control max_size n calls h r in
        let z = Reach-Sized max_size top first roomy calls suits n h fits r in
        let (m', p', mv) =
          can_move t (calls t) s.mem (s.pc t) (suits t) z.short z.kept (z.local t) (c.writer t)
            (c.reader t) f (Reach-Held max_size calls alike n h r t) d in
        (record { mem = m'; pc = update s.pc t p' }, pick t l mv)

    -- In every state that the threads come to, if one has not returned, then one can make a step.
    pub no_deadlock :
        (s : System)
        → Reach max_size n calls h s
        → (t : ℕ) → t < n
        → is_returned (s.pc t) ≡ false
        → (s' : System) × Step max_size n calls s s'
    no_deadlock s r t l d =
        let c = Reach-Control max_size n calls h r in
        elim (Option-cases s.mem.mutex) [
          | inl e ↦ can_step s r t l d (λ x. e)
          | inr (u, e) ↦
              let has = c.held u e in
              let picked : u < n = elim (dec_lt u n) [
                | yes y ↦ y
                | no o ↦ cc (never_picked r u (omega arith), has)
              ] in
              can_step s r u picked (ground arith) (λ x. cc)
        ]

    someone_left :
        (pc : ℕ → Pc) (k : ℕ)
        → ((t : ℕ) × (t < k) × (is_returned (pc t) ≡ false))
          ⊎ ((t : ℕ) → t < k → is_returned (pc t) ≡ true)
    someone_left pc zero = inr (λ t l. absurd (omega arith))
    someone_left pc (suc k) = elim (Bool-cases (is_returned (pc k))) [
      | inr f ↦ inl (k, omega arith, f)
      | inl y ↦ elim (someone_left pc k) [
        | inl (t, l, f) ↦ inl (t, omega arith, f)
        | inr all ↦ inr (λ t l. elim (ℕ_discrete t k) [
          | yes e ↦ ap (λ (u : ℕ). is_returned (pc u)) e ∙ y
          | no o ↦ all t (omega arith)
        ])
      ]
    ]

    finish :
        (k : ℕ) (s : System)
        → Reach max_size n calls h s
        → work calls n s.pc ≤ k
        → (s' : System) × Reach max_size n calls h s'
          × ((t : ℕ) → t < n → is_returned (s'.pc t) ≡ true)
    finish zero s r b = elim (someone_left s.pc n) [
      | inr all ↦ (s, r, all)
      | inl (t, l, d) ↦
          let (s', st) = no_deadlock s r t l d in
          absurd (omega (arith, Step-work max_size n calls s s' st))
    ]
    finish (suc k) s r b = elim (someone_left s.pc n) [
      | inr all ↦ (s, r, all)
      | inl (t, l, d) ↦
          let (s', st) = no_deadlock s r t l d in
          finish k s' (later r st) (omega (arith, Step-work max_size n calls s s' st))
    ]

    -- Where the vector, of a limit below 2 ^ 63, has room for the places that are written to, ten times
    -- over, the hoard of the start is at most four times as large as those, every read stays within it,
    -- every call stays within its buffer, and all the calls are writes or none is, the threads can go
    -- on from every state that they come to until all have returned; and then the hoard is what whole
    -- puts leave, one after the other: those of all the writers, each once, and no other.
    pub threads-finish :
        (s : System)
        → Reach max_size n calls h s
        → (s' : System) × (order : List ℕ) × Reach max_size n calls h s'
          × ((t : ℕ) → t < n → is_returned (s'.pc t) ≡ true)
          × Puts max_size n calls h order s'.mem.hoard
          × ((t : ℕ) → t < n → member max_size n calls t order ≡ ((calls t).kind == write))
    threads-finish s r =
        let (s', r', all) = finish (work calls n s.pc) s r (omega arith) in
        let quiet : (t : ℕ) → critical (s'.pc t) ≡ false = λ t. elim (dec_lt t n) [
          | yes l ↦ ground (arith, all t l)
          | no o ↦ ap critical (never_picked r' t (omega arith))
        ] in
        let (order, puts, listed) = threads-serial max_size n calls h s' r' quiet in
        (s', order, r', all, puts, λ t l. listed t ∙ ground (arith, all t l))
