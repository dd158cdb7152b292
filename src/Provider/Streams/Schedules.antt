-- ===== src/Provider/Streams/Schedules.antt =====
-- Schedules of handlers of src/provider.c, put together from parts.
use cachercise.Base.{
  ℕ, zero, suc, ◌≡◌, refl, ap, ◌∙◌, false, List, [], ◌∷◌, ◌++◌, ◌==◌, arith, replicate, inl, inr,
}
use cachercise.Base.Run.{ok_injective, Run, ok, ◌>>=◌, Run-cases}
use cachercise.Provider.Streams.{Stream, done, access, alone, turn, System, replaced, interleave}

module _ {S A : Type 0} where
  pub interleave-append :
      (ts us : List ℕ) (s : System S A)
      → interleave (ts ++ us) s ≡ (interleave ts s >>= interleave us)
  unfolding interleave
  interleave-append [] us s = refl
  interleave-append (t ∷ ts) us s = elim (Run-cases (turn (s.stream t) s.shared)) [
    | inl ((c, m), e) ↦
        rw e (interleave-append ts us (record { shared = m; stream = replaced s.stream t c }))
    | inr (x, e) ↦ rw e refl
  ]

  -- The turns of one handler.
  unfoldable pub take_turns : ℕ → Stream S A → S → Run (Stream S A × S)
  take_turns zero c m = ok (c, m)
  take_turns (suc n) c m = do (c', m') ← turn c m; take_turns n c' m'

  -- Turns of `t` alone take its stream to `c` and what is shared to `m'`, and leave the other streams.
  pub record Advanced (t n : ℕ) (c : Stream S A) (f : ℕ → Stream S A) (m m' : S) : Type 1 where
    pub stream : ℕ → Stream S A
    pub run :
        interleave (replicate n t) (record { shared = m; stream = f })
        ≡ ok (record { shared = m'; stream = stream })
    pub reached : stream t ≡ c
    pub others : (u : ℕ) → (u == t) ≡ false → stream u ≡ f u

  pub advance :
      (t n : ℕ) (c c' : Stream S A) (f : ℕ → Stream S A) (m m' : S)
      → f t ≡ c
      → take_turns n c m ≡ ok (c', m')
      → Advanced t n c' f m m'
  unfolding take_turns interleave
  advance t zero c c' f m m' e h = record {
    stream = f;
    run = ap (λ v. ok (record { shared = v; stream = f })) (ap (λ v. v.1) (ok_injective h));
    reached = e ∙ ap (λ v. v.0) (ok_injective h);
    others = λ u n. refl;
  }
  advance t (suc n) c c' f m m' e h = elim (Run-cases (turn c m)) [
    | inr (x, r) ↦ cc (rw r at h)
    | inl ((c₁, m₁), r) ↦
        let rest = advance t n c₁ c' (replaced f t c₁) m₁ m' (ground arith) (rw r at h) in
        record {
          stream = rest.stream;
          run = rw (e, r) rest.run;
          reached = rest.reached;
          others = λ u o. rest.others u o ∙ rw o refl;
        }
  ]

  -- A handler that ends when it is alone ends after some turns.
  pub alone-turns :
      (c : Stream S A) (a : A) (m m' : S)
      → alone c m ≡ ok (a, m')
      → (n : ℕ) × (take_turns n c m ≡ ok (done a, m'))
  unfolding alone take_turns turn
  alone-turns (done b) a m m' h = (0, ap (λ v. ok (done v.0, v.1)) (ok_injective h))
  alone-turns (access g k) a m m' h = elim (Run-cases (g m)) [
    | inr (x, r) ↦ cc (rw r at h)
    | inl ((x, m₁), r) ↦ let (n, e) = alone-turns (k x) a m₁ m' (rw r at h) in (suc n, rw r e)
  ]

  -- Further turns after those of `t`.
  pub Advanced-then :
      {t n : ℕ} {c : Stream S A} {f : ℕ → Stream S A} {m m' : S} (us : List ℕ)
      (a : Advanced t n c f m m')
      → interleave (replicate n t ++ us) (record { shared = m; stream = f })
        ≡ interleave us (record { shared = m'; stream = a.stream })
  Advanced-then {t} {n} {f = f} {m = m} us a =
      interleave-append (replicate n t) us (record { shared = m; stream = f }) ∙ rw a.run refl
