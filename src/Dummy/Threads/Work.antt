-- ===== src/Dummy/Threads/Work.antt =====
-- How many steps the threads have left.
use cachercise.Base.{ℕ, zero, suc, ◌*◌, ◌+◌, ◌-◌, ◌<◌, ◌≤◌, ◌≡◌, refl, ap, true, false, arith, ◌==◌}
use native.Mathlib.Decide.{ℕ_discrete}
use cachercise.Dummy.Threads.{
  enlarging, loaded, faulted, test, enough, load, freed, Call, Shared, Pc, waiting, growing,
  copying, leaving, reading, returned, Move, lock, resized, copy, copied, unlock, begin_read, fetch,
  fetched, System, update, Step, pick,
}

-- The most steps that a call still makes.
abbrev pub steps : Call → Pc → ℕ
steps a waiting = a.count * 2 + 5
steps a growing = a.count + 4
steps a enlarging = a.count + 3
steps a (copying i) = a.count - i + 2
steps a leaving = 1
steps a (reading i dest) = (a.count - i) * 2 + 1
steps a (loaded i dest g) = (a.count - suc i) * 2 + 2
steps a faulted = 0
steps a (returned scratch) = 0

abbrev pub work : (calls : ℕ → Call) (n : ℕ) → (ℕ → Pc) → ℕ
work calls zero pc = 0
work calls (suc n) pc = steps (calls n) (pc n) + work calls n pc

work-later :
    (calls : ℕ → Call) (n : ℕ) (pc : ℕ → Pc) (t : ℕ) (p : Pc)
    → n ≤ t
    → work calls n (update pc t p) ≡ work calls n pc
work-later calls zero pc t p l = refl
work-later calls (suc n) pc t p l =
    let other : (n == t) ≡ false = ground arith in
    rw other (ap (λ (k : ℕ). steps (calls n) (pc n) + k) (work-later calls n pc t p (omega arith)))

work-less :
    (calls : ℕ → Call) (n : ℕ) (pc : ℕ → Pc) (t : ℕ) (p : Pc)
    → t < n
    → steps (calls t) p < steps (calls t) (pc t)
    → work calls n (update pc t p) < work calls n pc
work-less calls zero pc t p l d = absurd (omega arith)
work-less calls (suc n) pc t p l d = elim (ℕ_discrete n t) [
  | yes e ↦
      let self : (n == t) ≡ true = ground arith in
      let d' : steps (calls n) p < steps (calls n) (pc n) = rw e d in
      rw self (omega (arith, work-later calls n pc t p (omega arith), d'))
  | no o ↦
      let other : (n == t) ≡ false = ground arith in
      let less = work-less calls n pc t p (omega arith) d in rw other (omega (arith, less))
]

Move-steps :
    {max_size t : ℕ} {a : Call} {m m' : Shared} {p p' : Pc}
    → Move max_size t a m p m' p'
    → steps a p' < steps a p
Move-steps (lock k f) = omega arith
Move-steps (test s) = omega arith
Move-steps (enough s) = omega arith
Move-steps (resized moved g) = omega arith
Move-steps (copy l v g) = omega arith
Move-steps (copied l) = omega arith
Move-steps unlock = omega arith
Move-steps (begin_read k) = omega arith
Move-steps (load l) = omega arith
Move-steps (fetch s v g) = omega arith
Move-steps (freed s) = omega arith
Move-steps (fetched l) = omega arith

-- Whatever the scheduler picks, a step leaves the threads less work, which is a number of steps: no
-- schedule goes on for ever.
pub Step-work :
    (max_size n : ℕ) (calls : ℕ → Call) (s s' : System)
    → Step max_size n calls s s'
    → work calls n s'.pc < work calls n s.pc
Step-work max_size n calls s s' (pick t l mv) = work-less calls n s.pc t _ l (Move-steps mv)
