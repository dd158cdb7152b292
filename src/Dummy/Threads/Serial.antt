-- ===== src/Dummy/Threads/Serial.antt =====
-- The hoard that threads leave, as the outcome of whole puts one after the other.
use cachercise.Base.{
  ℕ, suc, ◌+◌, ◌-◌, ◌*◌, ◌<◌, ◌≤◌, ◌≡◌, refl, sym, ap, ◌∙◌, Bool, true, false, none, some, List, [],
  ◌∷◌, arith, ◌==◌, if◌then◌else◌, get_elem?, ltb, length, Option-cases, inl, inr,
}
use mathlib.Core.Path.{subst}
use cachercise.Base.Run.{Run, Run-cases, ok, ◌>>=◌}
use cachercise.Common.{write, to_int32, u64}
use cachercise.Hoard.{Hoard, resize, store, put, write_loop}
use cachercise.Dummy.Threads.{
  Call, Shared, Pc, waiting, growing, copying, leaving, reading, returned, critical, enlarging,
  loaded, small, enlarge, test, enough, load, freed, Move, lock, resized, copy, copied, unlock,
  begin_read, fetch, fetched, System, update, pick, Reach, start, later, member, Puts, no_puts,
  then_put,
}
use cachercise.Dummy.Threads.Exclusive.{Control, Reach-Control, is_reading}

-- The call has put its items.
abbrev pub has_put : Call → Pc → Bool
has_put a (returned _) = a.kind == write
has_put a _ = false

module _ (max_size : ℕ) where
  -- What a whole put leaves of the hoard.
  pub whole : Call → Hoard → Run Hoard
  whole a h =
      (if small a h then enlarge max_size a h else ok h) >>= write_loop a.count 0 a.offset a.scratch

  -- What is left to do of it.
  abbrev rest : Call → Pc → Hoard → Run Hoard
  rest a growing h = whole a h
  rest a enlarging h = enlarge max_size a h >>= write_loop a.count 0 a.offset a.scratch
  rest a (copying i) h = write_loop (a.count - i) i a.offset a.scratch h
  rest a _ h = ok h

  put-whole :
      (a : Call) (h h' : Hoard)
      → whole a h ≡ ok h'
      → put max_size h a.scratch a.count a.offset ≡ ok (to_int32 a.count, h')
  unfolding put whole enlarge
  put-whole a h h' e =
      elim (Run-cases (
        if ltb (length h) (u64 (a.offset + a.count))
        then resize max_size (u64 ((length h + a.offset + a.count) * 2)) h
        else ok h)) [
          | inl (h₁, r) ↦
              let loop : write_loop a.count 0 a.offset a.scratch h₁ ≡ ok h' = rw r at e in
              rw (r, loop) refl
          | inr (f, r) ↦ cc (rw r at e)
        ]

  rest-test : (a : Call) (h : Hoard) → small a h ≡ true → rest a growing h ≡ rest a enlarging h
  unfolding whole
  rest-test a h e = rw e refl

  rest-enough : (a : Call) (h : Hoard) → small a h ≡ false → rest a growing h ≡ rest a (copying 0) h
  unfolding whole
  rest-enough a h e = let n : a.count - 0 ≡ a.count = omega arith in rw (e, n) refl

  rest-resized :
      (a : Call) (h h' : Hoard)
      → enlarge max_size a h ≡ ok h'
      → rest a enlarging h ≡ rest a (copying 0) h'
  rest-resized a h h' e = let n : a.count - 0 ≡ a.count = omega arith in rw (e, n) refl

  rest-copy :
      (a : Call) (i v : ℕ) (h h' : Hoard)
      → i < a.count
      → get_elem? a.scratch i ≡ some v
      → store h (u64 (a.offset + i)) v ≡ ok h'
      → rest a (copying i) h ≡ rest a (copying (suc i)) h'
  unfolding write_loop
  rest-copy a i v h h' l e s =
      let n : a.count - i ≡ suc (a.count - suc i) = omega arith in rw (n, e, s) refl

  rest-copied : (a : Call) (i : ℕ) (h : Hoard) → a.count ≤ i → rest a (copying i) h ≡ ok h
  unfolding write_loop
  rest-copied a i h l = let n : a.count - i ≡ 0 = omega arith in rw n refl

  module _ (n : ℕ) (calls : ℕ → Call) (h₀ : Hoard) where
    -- `base` is what the puts of `order` have left. While nobody has the mutex it is the hoard; and
    -- what is left to do by the thread that has the mutex makes of the hoard what a whole put makes
    -- of `base`.
    pub record Serial (m : Shared) (pc : ℕ → Pc) : Type 0 where
      pub base : Hoard
      pub order : List ℕ
      pub puts : Puts max_size n calls h₀ order base
      pub listed : (t : ℕ) → member max_size n calls t order ≡ has_put (calls t) (pc t)
      pub free : m.mutex ≡ none → m.hoard ≡ base
      pub busy : (t : ℕ) → m.mutex ≡ some t → rest (calls t) (pc t) m.hoard ≡ whole (calls t) base

    update_self : (pc : ℕ → Pc) (t : ℕ) (p : Pc) → update pc t p t ≡ p
    update_self pc t p = ground arith

    -- A move of the thread that has the mutex, other than its last.
    inside :
        {m : Shared} {pc : ℕ → Pc} (t : ℕ) (p p' : Pc) (h' : Hoard) (g : ℕ)
        → Control calls m pc
        → (s : Serial m pc) → pc t ≡ p
        → critical p ≡ true
        → critical p' ≡ true
        → rest (calls t) p m.hoard ≡ rest (calls t) p' h'
        → Serial (record m { hoard = h'; storage = g }) (update pc t p')
    inside {m} {pc} t p p' h' g c s e a b k =
        let mine : m.mutex ≡ some t = c.owner t (ap critical e ∙ a) in
        record {
          base = s.base;
          order = s.order;
          puts = s.puts;
          listed = λ u. ground (arith, s.listed u, s.listed t, e, a, b, ap calls);
          free = λ f. cc;
          busy = λ u f.
              let u≡t : t ≡ u = cc in
              subst (λ v. rest (calls v) (update pc t p' v) h' ≡ whole (calls v) s.base) u≡t
                (ap (λ q. rest (calls t) q h') (update_self pc t p')
                  ∙ sym k
                  ∙ ap (λ q. rest (calls t) q m.hoard) (sym e)
                  ∙ s.busy t mine);
        }

    -- A move of a thread that does not have the mutex, and does not lock it.
    outside :
        {m : Shared} {pc : ℕ → Pc} (t : ℕ) (p p' : Pc)
        → Control calls m pc
        → (s : Serial m pc) → pc t ≡ p
        → critical p ≡ false
        → has_put (calls t) p ≡ has_put (calls t) p'
        → Serial m (update pc t p')
    outside {m} {pc} t p p' c s e a k = record {
      base = s.base;
      order = s.order;
      puts = s.puts;
      listed = λ u. ground (arith, s.listed u, s.listed t, e, k, ap calls);
      free = s.free;
      busy = λ u f.
          let other : (u == t) ≡ false = ground (arith, c.held u, e, a) in rw other (s.busy u f);
    }

    Move-Serial :
        {m m' : Shared} {pc : ℕ → Pc} (t : ℕ) {p p' : Pc}
        → Control calls m pc
        → Serial m pc
        → pc t ≡ p
        → Move max_size t (calls t) m p m' p'
        → Serial m' (update pc t p')
    Move-Serial {m} {pc = pc} t c s e (lock k f) = record {
      base = s.base;
      order = s.order;
      puts = s.puts;
      listed = λ u. ground (arith, s.listed u, s.listed t, e, ap calls);
      free = λ g. cc;
      busy = λ u g.
          let u≡t : t ≡ u = cc in
          subst (λ v. rest (calls v) (update pc t growing v) m.hoard ≡ whole (calls v) s.base) u≡t
            (ap (λ q. rest (calls t) q m.hoard) (update_self pc t growing)
              ∙ ap (whole (calls t)) (s.free f));
    }
    Move-Serial {m} t c s e (test b) =
        inside t growing enlarging m.hoard m.storage c s e refl refl (rest-test (calls t) m.hoard b)
    Move-Serial {m} t c s e (enough b) =
        inside t growing (copying 0) m.hoard m.storage c s e refl refl
          (rest-enough (calls t) m.hoard b)
    Move-Serial {m} t c s e (resized {h'} moved g) =
        inside t enlarging (copying 0) h' _ c s e refl refl (rest-resized (calls t) m.hoard h' g)
    Move-Serial {m} t c s e (copy {i} {v} {h'} l a g) =
        inside t (copying i) (copying (suc i)) h' m.storage c s e refl refl
          (rest-copy (calls t) i v m.hoard h' l a g)
    Move-Serial {m} t c s e (copied {i} l) =
        inside t (copying i) leaving m.hoard m.storage c s e refl refl
          (rest-copied (calls t) i m.hoard l)
    Move-Serial {m} {pc = pc} t c s e unlock =
        let done : ok m.hoard ≡ whole (calls t) s.base =
          ap (λ q. rest (calls t) q m.hoard) (sym e) ∙ s.busy t (c.owner t (ap critical e)) in
        let w = c.writer t (ap critical e) in
        let new : member max_size n calls t s.order ≡ false =
          s.listed t ∙ ap (has_put (calls t)) e in
        record {
          base = m.hoard;
          order = t ∷ s.order;
          puts =
              then_put t (to_int32 (calls t).count) s.puts new
                (put-whole (calls t) s.base m.hoard (sym done));
          listed = λ u. ground (arith, s.listed u, w, ap calls);
          free = λ f. refl;
          busy = λ u f. cc;
        }
    Move-Serial t c s e (begin_read k) = outside t waiting _ c s e refl refl
    Move-Serial t c s e (load {i} {dest} l) = outside t (reading i dest) _ c s e refl refl
    Move-Serial t c s e (fetch {i} {v} {g} {dest} f a b) =
        outside t (loaded i dest g) _ c s e refl refl
    Move-Serial t c s e (freed {i} {g} {dest} f) = outside t (loaded i dest g) _ c s e refl refl
    Move-Serial t c s e (fetched {i} {dest} l) =
        let k = c.reader t (ap is_reading e) in
        outside t (reading i dest) (returned dest) c s e refl (ground arith)

    Reach-Serial : {s : System} → Reach max_size n calls h₀ s → Serial s.mem s.pc
    Reach-Serial start = record {
      base = h₀;
      order = [];
      puts = no_puts;
      listed = λ t. refl;
      free = λ f. refl;
      busy = λ t f. cc;
    }
    Reach-Serial (later r (pick t l mv)) =
        Move-Serial t (Reach-Control max_size n calls h₀ r) (Reach-Serial r) refl mv

    -- However the threads are scheduled, while none is between the lock and the unlock of the mutex
    -- the hoard is what whole puts leave, one after the other: those of the writers that have
    -- returned, each once, and no other.
    pub threads-serial :
        (s : System)
        → Reach max_size n calls h₀ s
        → ((t : ℕ) → critical (s.pc t) ≡ false)
        → (order : List ℕ) × Puts max_size n calls h₀ order s.mem.hoard
          × ((t : ℕ) → member max_size n calls t order ≡ has_put (calls t) (s.pc t))
    threads-serial s r quiet =
        let i = Reach-Serial r in
        let c = Reach-Control max_size n calls h₀ r in
        let free : s.mem.mutex ≡ none = elim (Option-cases s.mem.mutex) [
          | inl e ↦ e
          | inr (t, e) ↦ cc (c.held t e, quiet t)
        ] in
        (i.order, subst (Puts max_size n calls h₀ i.order) (sym (i.free free)) i.puts, i.listed)
