-- ===== src/Dummy/Threads/Exclusive.antt =====
-- Who has the mutex of the context: mutual exclusion of the writers.
use cachercise.Base.{ℕ, ◌≡◌, ◌≢◌, refl, ap, Bool, true, false, some, arith}
use cachercise.Common.{write}
use cachercise.Hoard.{Hoard}
use cachercise.Dummy.Threads.{
  Call, Shared, Pc, reading, loaded, critical, Move, lock, begin_read, System, update, pick, Reach,
  start, later,
}

abbrev pub is_reading : Pc → Bool
is_reading (reading i dest) = true
is_reading (loaded i dest g) = true
is_reading _ = false

-- A thread is in the critical section just when it has the mutex, and then it writes; a thread in the
-- loop of `get` does not.
pub record Control (calls : ℕ → Call) (m : Shared) (pc : ℕ → Pc) : Type 0 where
  pub owner : (t : ℕ) → critical (pc t) ≡ true → m.mutex ≡ some t
  pub held : (t : ℕ) → m.mutex ≡ some t → critical (pc t) ≡ true
  pub writer : (t : ℕ) → critical (pc t) ≡ true → (calls t).kind ≡ write
  pub reader : (t : ℕ) → is_reading (pc t) ≡ true → (calls t).kind ≢ write

module _ (max_size n : ℕ) (calls : ℕ → Call) where
  -- A reader reads, which the catch-all clause below cannot name.
  abbrev Guard :
      {t : ℕ} {a : Call} {m m' : Shared} {p p' : Pc} → Move max_size t a m p m' p' → Type 0
  Guard {a = a} (begin_read k) = a.kind ≢ write
  Guard _ = Unit {0}

  guard :
      {t : ℕ} {a : Call} {m m' : Shared} {p p' : Pc} (mv : Move max_size t a m p m' p') → Guard mv
  guard (begin_read k) = k
  guard _ = tt

  Move-Control :
      {m m' : Shared} {pc : ℕ → Pc} (t : ℕ) {p p' : Pc}
      → Control calls m pc
      → pc t ≡ p
      → Move max_size t (calls t) m p m' p'
      → Control calls m' (update pc t p')
  Move-Control t c e (lock k f) = record {
    owner = λ u. ground (arith, c.owner u);
    held = λ u. ground (arith, c.held u);
    writer = λ u. ground (arith, c.writer u, k, ap calls);
    reader = λ u. ground (arith, c.reader u);
  }
  Move-Control t c e mv = record {
    owner = λ u. ground (arith, guard mv, c.owner u, c.owner t, e);
    held = λ u. ground (arith, guard mv, c.held u, c.owner t, e);
    writer = λ u. ground (arith, guard mv, c.writer u, c.writer t, e, ap calls);
    reader = λ u. ground (arith, guard mv, c.reader u, c.reader t, e, ap calls);
  }

  pub Reach-Control :
      (h : Hoard) {s : System} → Reach max_size n calls h s → Control calls s.mem s.pc
  Reach-Control h start = record {
    owner = λ t e. cc;
    held = λ t e. cc;
    writer = λ t e. cc;
    reader = λ t e. cc;
  }
  Reach-Control h (later r (pick t l mv)) = Move-Control t (Reach-Control h r) refl mv

  -- However the threads are scheduled, two are never both between the lock and the unlock of the
  -- mutex, and one that is there writes.
  pub mutual_exclusion :
      (h : Hoard) (s : System)
      → Reach max_size n calls h s
      → (t u : ℕ) → critical (s.pc t) ≡ true
      → critical (s.pc u) ≡ true
      → (t ≡ u) × ((calls t).kind ≡ write)
  mutual_exclusion h s r t u a b =
      let c = Reach-Control h r in (ground (arith, c.owner t, c.owner u), c.writer t a)
