-- ===== src/Dummy/Threads/Storage.antt =====
-- The storage of the vector while threads work on it, all of which write, or none of which does.
use cachercise.Base.{ℕ, ◌≡◌, ◌≢◌, refl, ap, true, false, arith, ◌==◌}
use mathlib.Core.Path.{subst}
use native.Mathlib.Decide.{ℕ_discrete}
use cachercise.Common.{write}
use cachercise.Hoard.{Hoard}
use cachercise.Dummy.Threads.{
  Call, Shared, Pc, waiting, growing, enlarging, copying, leaving, reading, loaded, returned,
  faulted, critical, Move, lock, test, enough, resized, copy, copied, unlock, begin_read, load,
  fetch, freed, fetched, System, update, pick, Reach, start, later,
}
use cachercise.Dummy.Threads.Exclusive.{Control, Reach-Control, is_reading}

-- The address that a thread has loaded is that of the storage, and no thread has read from another.
abbrev pub Held : (storage : ℕ) → Pc → Type 0
Held storage (loaded i dest g) = g ≡ storage
Held storage faulted = ⊥
Held storage _ = Unit {0}

Held-writing : (g storage : ℕ) (p : Pc) → is_reading p ≡ false → Held g p → Held storage p
Held-writing g storage waiting r h = tt
Held-writing g storage growing r h = tt
Held-writing g storage enlarging r h = tt
Held-writing g storage (copying i) r h = tt
Held-writing g storage leaving r h = tt
Held-writing g storage (reading i dest) r h = tt
Held-writing g storage (loaded i dest k) r h = cc
Held-writing g storage (returned scratch) r h = tt
Held-writing g storage faulted r h = h

-- If one call is a write, all are.
abbrev pub Alike : (ℕ → Call) → Type 0
Alike calls = (t u : ℕ) → (calls t).kind ≡ write → (calls u).kind ≡ write

module _ (max_size : ℕ) (calls : ℕ → Call) (alike : Alike calls) where
  moves :
      (pc : ℕ → Pc) (t : ℕ) (p' : Pc) (g storage : ℕ)
      → ((u : ℕ) → Held g (pc u))
      → ((u : ℕ) → u ≢ t → Held g (pc u) → Held storage (pc u))
      → Held storage p'
      → (u : ℕ) → Held storage (update pc t p' u)
  moves pc t p' g storage h k own u = elim (ℕ_discrete u t) [
    | yes e ↦ let self : (u == t) ≡ true = ground arith in rw self own
    | no o ↦ let other : (u == t) ≡ false = ground arith in rw other (k u o (h u))
  ]

  Move-Held :
      {m m' : Shared} {pc : ℕ → Pc} (t : ℕ) {p p' : Pc}
      → Control calls m pc
      → ((u : ℕ) → Held m.storage (pc u))
      → pc t ≡ p
      → Move max_size t (calls t) m p m' p'
      → (u : ℕ) → Held m'.storage (update pc t p' u)
  Move-Held {m} {pc = pc} t c h e (resized moved g) =
      let w = c.writer t (ap critical e) in
      moves _ t (copying 0) m.storage _ h
        (λ u o k. Held-writing m.storage _ (pc u) (ground (arith, c.reader u, alike t u w)) k) tt
  Move-Held {m} t c h e (load {i} {dest} l) =
      moves _ t (loaded i dest m.storage) m.storage m.storage h (λ u o k. k) refl
  Move-Held {m} t c h e (freed {i} {g} {dest} f) = absurd (f (subst (Held m.storage) e (h t)))
  Move-Held {m} t c h e (lock k f) = moves _ t growing m.storage m.storage h (λ u o k. k) tt
  Move-Held {m} t c h e (test b) = moves _ t enlarging m.storage m.storage h (λ u o k. k) tt
  Move-Held {m} t c h e (enough b) = moves _ t (copying 0) m.storage m.storage h (λ u o k. k) tt
  Move-Held {m} t c h e (copy {i} l a g) =
      moves _ t (copying _) m.storage m.storage h (λ u o k. k) tt
  Move-Held {m} t c h e (copied l) = moves _ t leaving m.storage m.storage h (λ u o k. k) tt
  Move-Held {m} t c h e unlock = moves _ t (returned _) m.storage m.storage h (λ u o k. k) tt
  Move-Held {m} t c h e (begin_read k) =
      moves _ t (reading 0 _) m.storage m.storage h (λ u o k. k) tt
  Move-Held {m} t c h e (fetch f a g) =
      moves _ t (reading _ _) m.storage m.storage h (λ u o k. k) tt
  Move-Held {m} t c h e (fetched l) = moves _ t (returned _) m.storage m.storage h (λ u o k. k) tt

  -- No address goes stale.
  pub Reach-Held :
      (n : ℕ) (h : Hoard) {s : System}
      → Reach max_size n calls h s
      → (t : ℕ) → Held s.mem.storage (s.pc t)
  Reach-Held n h start t = tt
  Reach-Held n h (later r (pick u l mv)) t =
      Move-Held u (Reach-Control max_size n calls h r) (Reach-Held n h r) refl mv t
