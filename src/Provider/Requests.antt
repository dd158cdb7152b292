-- ===== src/Provider/Requests.antt =====
-- A provider's life between its registration and its destruction: any requests, in any order. The
-- handlers of src/provider.c run one after the other; a request whose handler goes wrong ends the
-- process.
use mathlib.Core.Path.{subst}
use cachercise.Base.{
  ◌≡◌, refl, String, Bool, true, false, Option, none, some, if◌then◌else◌, Option-cases, Bool-cases,
  inl, inr, ap, ◌∙◌,
}
use cachercise.Base.Run.{Run, ok, ◌>>=◌, Yields, Yields-bind, Yields-true}
use cachercise.Common.{ReturnCode, success, CacheId, Ptr}
use cachercise.Backend.{BackendImpl}
use cachercise.Table.{UtHash}
use cachercise.Messages.{
  CreateCacheIn, CreateCacheOut, CloseCacheIn, CloseCacheOut, HelloIn, SumIn, SumOut, IoIn, IoOut,
}
use cachercise.Provider.Handlers.{
  install, set_up, create_with, open_with, create_cache, open_cache, close_cache, destroy_found,
  destroy_cache, hello, sum, io,
}
use cachercise.Provider.{
  Cache, Provider, check_token, find_backend_impl, find_cache, add_cache, drop_cache, remove_cache,
}

module _ {W T : Type 0} (hash : UtHash T (Cache W)) where
  -- One request that a handler answers. `list_caches` changes nothing.
  pub data Step (p : Provider W T) (w : W) (p' : Provider W T) (w' : W) : Type 0 where
    created :
        (memory : Bool) (uuid : CacheId) (out answer : CreateCacheOut)
        (input : Option CreateCacheIn)
        → create_cache hash memory uuid out p w input ≡ ok (answer, p', w')
        → Step p w p' w'
    opened :
        (memory : Bool) (uuid : CacheId) (out answer : CreateCacheOut)
        (input : Option CreateCacheIn)
        → open_cache hash memory uuid out p w input ≡ ok (answer, p', w')
        → Step p w p' w'
    closed :
        (answer : CloseCacheOut) (input : Option CloseCacheIn)
        → close_cache hash p w input ≡ ok (answer, p', w')
        → Step p w p' w'
    destroyed :
        (answer : CloseCacheOut) (input : Option CloseCacheIn)
        → destroy_cache hash p w input ≡ ok (answer, p', w')
        → Step p w p' w'
    greeted : (input : Option HelloIn) → hello hash p w input ≡ ok w' → p' ≡ p → Step p w p' w'
    summed :
        (out answer : SumOut) (input : Option SumIn)
        → sum hash p w out input ≡ ok (answer, w')
        → p' ≡ p
        → Step p w p' w'
    transferred :
        (out answer : IoOut) (input : Option IoIn)
        → io hash p w out input ≡ ok (answer, w')
        → p' ≡ p
        → Step p w p' w'

  pub data Reachable (p : Provider W T) (w : W) : Provider W T → W → Type 0 where
    start : Reachable p w p w
    next :
        (p₁ p₂ : Provider W T) (w₁ w₂ : W)
        → Reachable p w p₁ w₁
        → Step p₁ w₁ p₂ w₂
        → Reachable p w p₂ w₂

  -- The RPC ids stay.
  abbrev SameIds : {Out : Type 0} → Provider W T → Run (Out × Provider W T × W) → Type 0
  SameIds p = Yields (λ (out, p', w'). p'.rpc_ids ≡ p.rpc_ids)

  install-SameIds :
      (memory : Bool) (uuid : CacheId) (b : BackendImpl W) (c : Ptr) (p : Provider W T) (w : W)
      → SameIds p (install hash memory uuid b c p w)
  unfolding install add_cache
  install-SameIds false uuid b c p w = tt
  install-SameIds true uuid b c p w = elim (Option-cases (find_cache hash p uuid)) [
    | inl e ↦ rw (e, add_cache) refl
    | inr (old, e) ↦ rw (e, add_cache) refl
  ]

  set_up-SameIds :
      (memory : Bool) (uuid : CacheId) (out : CreateCacheOut) (p : Provider W T) (w : W)
      (b : BackendImpl W) (r : ReturnCode × Ptr × W)
      → SameIds p (set_up hash memory uuid out p w b r)
  unfolding set_up
  set_up-SameIds memory uuid out p w b (success, c, w') = install-SameIds memory uuid b c p w'
  set_up-SameIds memory uuid out p w b (r, c, w') = refl

  remove_cache-SameIds :
      (p : Provider W T) (w : W) (id : CacheId) (close : Bool)
      → SameIds p (remove_cache hash p id close w)
  unfolding remove_cache drop_cache
  remove_cache-SameIds p w id close = elim (Option-cases (find_cache hash p id)) [
    | inl e ↦ rw (e, remove_cache) refl
    | inr (r, e) ↦
        rw (e, remove_cache)
          (Yields-bind _ _ (if close then r.fn.close_cache r.ctx w else ok (success, w)) _
            (Yields-true (if close then r.fn.close_cache r.ctx w else ok (success, w)))
            λ (ret, w') _. refl)
  ]

  -- What holds of the answer to a wrong token and of the rest of a handler holds of the handler.
  pub guarded :
      {A : Type 0} (P : A → Type 0) (p : Provider W T) (token : Option String) (x : Run A) (d : A)
      → P d
      → Yields P x
      → Yields P (check_token p token >>= λ valid. if valid then x else ok d)
  guarded P p token x d h k =
      Yields-bind _ _ (check_token p token) _ (Yields-true (check_token p token))
        λ valid _. elim (Bool-cases valid) [ inl t ↦ rw t k | inr t ↦ rw t h ]

  module _ (memory : Bool) (uuid : CacheId) (out : CreateCacheOut) (p : Provider W T) (w : W) where
    create_with-SameIds :
        (input : CreateCacheIn) (o : Option (BackendImpl W))
        → SameIds p (create_with hash memory uuid out p w input o)
    unfolding create_with
    create_with-SameIds input none = refl
    create_with-SameIds input (some b) =
        Yields-bind _ _ (b.create_cache input.config w) _
          (Yields-true (b.create_cache input.config w))
          λ r _. set_up-SameIds memory uuid out p w b r

    open_with-SameIds :
        (input : CreateCacheIn) (o : Option (BackendImpl W))
        → SameIds p (open_with hash memory uuid out p w input o)
    unfolding open_with
    open_with-SameIds input none = refl
    open_with-SameIds input (some b) =
        Yields-bind _ _ (b.open_cache input.config w) _ (Yields-true (b.open_cache input.config w))
          λ r _. set_up-SameIds memory uuid out p w b r

    create_cache-SameIds :
        (input : Option CreateCacheIn) → SameIds p (create_cache hash memory uuid out p w input)
    unfolding create_cache
    create_cache-SameIds none = refl
    create_cache-SameIds (some input) = guarded _ p input.token _ _ refl (
        Yields-bind _ _ (find_backend_impl p input.type) _
          (Yields-true (find_backend_impl p input.type)) λ o _. create_with-SameIds input o)

    open_cache-SameIds :
        (input : Option CreateCacheIn) → SameIds p (open_cache hash memory uuid out p w input)
    unfolding open_cache
    open_cache-SameIds none = refl
    open_cache-SameIds (some input) = guarded _ p input.token _ _ refl (
        Yields-bind _ _ (find_backend_impl p input.type) _
          (Yields-true (find_backend_impl p input.type)) λ o _. open_with-SameIds input o)

  close_cache-SameIds :
      (p : Provider W T) (w : W) (input : Option CloseCacheIn)
      → SameIds p (close_cache hash p w input)
  unfolding close_cache
  close_cache-SameIds p w none = refl
  close_cache-SameIds p w (some input) = guarded _ p input.token _ _ refl (
      Yields-bind _ _ (remove_cache hash p input.id true w) _
        (remove_cache-SameIds p w input.id true) λ r e. e)

  destroy_found-SameIds :
      (p : Provider W T) (w : W) (id : CacheId) (o : Option (Cache W))
      → SameIds p (destroy_found hash p w id o)
  unfolding destroy_found
  destroy_found-SameIds p w id none = refl
  destroy_found-SameIds p w id (some r) =
      Yields-bind _ _ (r.fn.destroy_cache r.ctx w) _ (Yields-true (r.fn.destroy_cache r.ctx w))
        λ (c, w₁) _.
          Yields-bind _ _ (remove_cache hash p id false w₁) _ (remove_cache-SameIds p w₁ id false)
            λ r' e'. e'

  destroy_cache-SameIds :
      (p : Provider W T) (w : W) (input : Option CloseCacheIn)
      → SameIds p (destroy_cache hash p w input)
  unfolding destroy_cache
  destroy_cache-SameIds p w none = refl
  destroy_cache-SameIds p w (some input) =
      guarded _ p input.token _ _ refl
        (destroy_found-SameIds p w input.id (find_cache hash p input.id))

  Step-SameIds : (p p' : Provider W T) (w w' : W) → Step p w p' w' → p'.rpc_ids ≡ p.rpc_ids
  Step-SameIds p p' w w' (created memory uuid out answer input e) =
      subst (SameIds p) e (create_cache-SameIds memory uuid out p w input)
  Step-SameIds p p' w w' (opened memory uuid out answer input e) =
      subst (SameIds p) e (open_cache-SameIds memory uuid out p w input)
  Step-SameIds p p' w w' (closed answer input e) =
      subst (SameIds p) e (close_cache-SameIds p w input)
  Step-SameIds p p' w w' (destroyed answer input e) =
      subst (SameIds p) e (destroy_cache-SameIds p w input)
  Step-SameIds p p' w w' (greeted input e s) = ap (λ (q : Provider W T). q.rpc_ids) s
  Step-SameIds p p' w w' (summed out answer input e s) = ap (λ (q : Provider W T). q.rpc_ids) s
  Step-SameIds p p' w w' (transferred out answer input e s) = ap (λ (q : Provider W T). q.rpc_ids) s

  pub Reachable-SameIds :
      (p : Provider W T) (w : W) (p' : Provider W T) (w' : W)
      → Reachable p w p' w'
      → p'.rpc_ids ≡ p.rpc_ids
  Reachable-SameIds p w p' w' start = refl
  Reachable-SameIds p w p' w' (next p₁ p₂ w₁ w₂ r s) =
      Step-SameIds p₁ p₂ w₁ w₂ s ∙ Reachable-SameIds p w p₁ w₁ r
