-- ===== src/Provider/Holdings.antt =====
-- The items of the provider's table: each cache is kept under its own id, has a backend that keeps
-- its contract, and has a context in use that no other cache has.
use cachercise.Base.{
  ◌≡◌, refl, Bool, true, false, none, some, List, [], ◌∷◌, ◌++◌, arith, ◌==◌, Bool-cases, inl, inr,
  ap, ◌∙◌,
}
use mathlib.Core.Path.{subst}
use mathlib.Core.Option.{some-injective}
use cachercise.Common.{CacheId, Ptr}
use cachercise.Backend.{Contract}
use cachercise.Table.{lookup, erase}
use cachercise.Provider.{Cache}

module _ {W : Type 0} (IsHeap : W → Type 0) (live : W → Ptr → Bool) where
  abbrev pub Unshared : Ptr → List (CacheId × Cache W) → Type 0
  Unshared c [] = Unit {0}
  Unshared c ((k, r) ∷ xs) = ((r.ctx == c) ≡ false) × Unshared c xs

  -- One cache and its key.
  pub record Held (w : W) (k : CacheId) (r : Cache W) : Type 0 where
    pub keyed : r.id ≡ k
    pub contract : Contract IsHeap live r.fn
    pub in_use : live w r.ctx ≡ true

  abbrev pub AllHeld : W → List (CacheId × Cache W) → Type 0
  AllHeld w [] = Unit {0}
  AllHeld w ((k, r) ∷ xs) = Held w k r × (lookup k xs ≡ none) × Unshared r.ctx xs × AllHeld w xs

  Held-live :
      (w w' : W) (k : CacheId) (r : Cache W)
      → live w' r.ctx ≡ live w r.ctx
      → Held w k r
      → Held w' k r
  Held-live w w' k r e h = record { keyed = h.keyed; contract = h.contract; in_use = e ∙ h.in_use }

  -- The caches stay held while the contexts in use stay, or grow in number.
  pub AllHeld-mono :
      (w w' : W) (xs : List (CacheId × Cache W))
      → ((q : Ptr) → live w q ≡ true → live w' q ≡ true)
      → AllHeld w xs
      → AllHeld w' xs
  AllHeld-mono w w' [] keep h = tt
  AllHeld-mono w w' ((k, r) ∷ xs) keep (h, a, u, rest) = (
    record { keyed = h.keyed; contract = h.contract; in_use = keep r.ctx h.in_use },
    a,
    u,
    AllHeld-mono w w' xs keep rest,
  )

  -- A context that is not in use belongs to no cache.
  pub Unshared-fresh :
      (w : W) (c : Ptr) (xs : List (CacheId × Cache W))
      → live w c ≡ false
      → AllHeld w xs
      → Unshared c xs
  Unshared-fresh w c [] f h = tt
  Unshared-fresh w c ((k, r) ∷ xs) f (h, a, u, rest) =
      (ground (arith, h.in_use, ap (live w)), Unshared-fresh w c xs f rest)

  Unshared-append :
      (c : Ptr) (k : CacheId) (r : Cache W) (xs : List (CacheId × Cache W))
      → Unshared c xs
      → (r.ctx == c) ≡ false
      → Unshared c (xs ++ (k, r) ∷ [])
  Unshared-append c k r [] u n = (n, tt)
  Unshared-append c k r (x ∷ xs) (m, u) n = (m, Unshared-append c k r xs u n)

  lookup-append_none :
      (j k : CacheId) (r : Cache W) (xs : List (CacheId × Cache W))
      → lookup j xs ≡ none
      → (k == j) ≡ false
      → lookup j (xs ++ (k, r) ∷ []) ≡ none
  unfolding lookup
  lookup-append_none j k r [] e n = ground arith
  lookup-append_none j k r ((i, s) ∷ xs) e n = ground (arith, lookup-append_none j k r xs)

  -- A cache under a new key, with a context that no cache has, may be added.
  pub AllHeld-append :
      (w : W) (k : CacheId) (r : Cache W) (xs : List (CacheId × Cache W))
      → AllHeld w xs
      → lookup k xs ≡ none
      → Held w k r
      → Unshared r.ctx xs
      → AllHeld w (xs ++ (k, r) ∷ [])
  unfolding lookup
  AllHeld-append w k r [] hs e h u = (h, refl, tt, tt)
  AllHeld-append w k r ((j, s) ∷ xs) (h', a, v, rest) e h (n, u) = (
    h',
    lookup-append_none j k r xs a (ground (arith, e)),
    Unshared-append s.ctx k r xs v (ground (arith, n)),
    AllHeld-append w k r xs rest (ground (arith, e)) h u,
  )

  -- What is found is held under its key.
  pub lookup-Held :
      (w : W) (k : CacheId) (r : Cache W) (xs : List (CacheId × Cache W))
      → AllHeld w xs
      → lookup k xs ≡ some r
      → Held w k r
  unfolding lookup
  lookup-Held w k r [] hs e = cc
  lookup-Held w k r ((j, s) ∷ xs) (h, a, u, rest) e = elim (Bool-cases (j == k)) [
    | inl hit ↦ found hit (rw hit at e)
    | inr miss ↦ lookup-Held w k r xs rest (rw miss at e)
  ]
    where
      found : (j == k) ≡ true → some s ≡ some r → Held w k r
      found hit f =
          let s≡r : s ≡ r = cc in
          let j≡k : j ≡ k = ground arith in subst (λ x. Held w x r) j≡k (subst (Held w j) s≡r h)

  lookup-Unshared :
      (c : Ptr) (k : CacheId) (r : Cache W) (xs : List (CacheId × Cache W))
      → Unshared c xs
      → lookup k xs ≡ some r
      → (r.ctx == c) ≡ false
  unfolding lookup
  lookup-Unshared c k r [] u e = cc
  lookup-Unshared c k r ((j, s) ∷ xs) (n, u) e = ground (arith, lookup-Unshared c k r xs u)

  Unshared-erase :
      (c : Ptr) (k : CacheId) (xs : List (CacheId × Cache W))
      → Unshared c xs
      → Unshared c (erase k xs)
  unfolding erase
  Unshared-erase c k [] u = tt
  Unshared-erase c k ((j, s) ∷ xs) (n, u) = elim (Bool-cases (j == k)) [
    | inl hit ↦ rw hit u
    | inr miss ↦ rw miss (n, Unshared-erase c k xs u)
  ]

  lookup-erase-none :
      (j k : CacheId) (xs : List (CacheId × Cache W))
      → lookup j xs ≡ none
      → lookup j (erase k xs) ≡ none
  unfolding lookup erase
  lookup-erase-none j k [] e = refl
  lookup-erase-none j k ((i, s) ∷ xs) e = ground (arith, lookup-erase-none j k xs)

  -- The other contexts stay in use.
  abbrev pub KeepsOthers : W → Ptr → W → Type 0
  KeepsOthers w c w' = (q : Ptr) → (q == c) ≡ false → live w' q ≡ live w q

  pub AllHeld-others :
      (w w' : W) (c : Ptr) (xs : List (CacheId × Cache W))
      → Unshared c xs
      → KeepsOthers w c w'
      → AllHeld w xs
      → AllHeld w' xs
  AllHeld-others w w' c [] u keep h = tt
  AllHeld-others w w' c ((k, r) ∷ xs) (n, u) keep (h, a, v, rest) =
      (Held-live w w' k r (keep r.ctx n) h, a, v, AllHeld-others w w' c xs u keep rest)

  -- With the context of the cache at `k` released, and that cache erased, the others stay held.
  pub AllHeld-erase :
      (w w' : W) (k : CacheId) (r : Cache W) (xs : List (CacheId × Cache W))
      → AllHeld w xs
      → lookup k xs ≡ some r
      → KeepsOthers w r.ctx w'
      → AllHeld w' (erase k xs)
  unfolding lookup erase
  AllHeld-erase w w' k r [] hs e keep = tt
  AllHeld-erase w w' k r ((j, s) ∷ xs) (h, a, u, rest) e keep = elim (Bool-cases (j == k)) [
    | inl hit ↦
        let s≡r : s ≡ r = some-injective s r (rw hit at e) in
        rw hit (
          AllHeld-others w w' r.ctx xs (subst (λ (x : Cache W). Unshared x.ctx xs) s≡r u) keep rest)
    | inr miss ↦
        let e' : lookup k xs ≡ some r = rw miss at e in
        let apart = lookup-Unshared s.ctx k r xs u e' in
        rw miss (
          Held-live w w' j s (keep s.ctx (ground (arith, apart))) h,
          lookup-erase-none j k xs a,
          Unshared-erase s.ctx k xs u,
          AllHeld-erase w w' k r xs rest e' keep,
        )
  ]

  -- An erased key is not found again.
  pub lookup-erase_self :
      (w : W) (k : CacheId) (xs : List (CacheId × Cache W))
      → AllHeld w xs
      → lookup k (erase k xs) ≡ none
  unfolding lookup erase
  lookup-erase_self w k [] hs = refl
  lookup-erase_self w k ((j, s) ∷ xs) (h, a, u, rest) =
      ground (arith, lookup-erase_self w k xs rest, ap (λ (i : CacheId). lookup i xs))
