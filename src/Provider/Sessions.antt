-- ===== src/Provider/Sessions.antt =====
-- What requests leave of a provider, and a whole session of one: its registration, any requests in
-- any order, and its destruction.
use mathlib.Core.Path.{subst}
use cachercise.Base.{ℕ, ◌≤◌, ◌≡◌, sym, Bool, true, Option, none, some, Option-cases, inl, inr}
use cachercise.Base.Run.{ok, Returns, Yields-bind, Returns-Yields, Returns-mono}
use cachercise.Common.{success, Ptr}
use cachercise.Backend.{BackendImpl, Contract}
use cachercise.Table.{UtHash}
use cachercise.Margo.{Margo}
use cachercise.Messages.{CloseCacheIn}
use cachercise.Provider.Sound.{IsSound}
use cachercise.Provider.Safety.{
  Keeps, KeepsMemory, create_cache-Keeps, open_cache-Keeps, io-KeepsMemory, sum-KeepsMemory,
  hello-IsSound,
}
use cachercise.Provider.Removal.{remove_cache-Gone, destroy_found-Gone}
use cachercise.Provider.Outcomes.{remove_cache-missing}
use cachercise.Provider.Listing.{Emptied}
use cachercise.Provider.Lifecycle.{ProviderArgs, new_provider, register, destroy}
use cachercise.Provider.Register.{
  CanRegister, register-ok, registered, registered_margo, registered-IsSound, destroy-restores,
}
use cachercise.Provider.Requests.{
  Step, created, opened, closed, destroyed, greeted, summed, transferred, Reachable, start, next,
  guarded, Reachable-SameIds,
}
use cachercise.Provider.Handlers.{close_cache, destroy_found, destroy_cache}
use cachercise.Provider.{Cache, Provider, find_cache, remove_cache}

module _ {W T : Type 0} (hash : UtHash T (Cache W)) where
  module _ (IsHeap : W → Type 0) (live : W → Ptr → Bool) where
    module _ (p : Provider W T) (w : W) (s : IsSound hash IsHeap live p w) where
      close_cache-Keeps :
          (input : Option CloseCacheIn) → Keeps hash IsHeap live (close_cache hash p w input)
      unfolding close_cache
      close_cache-Keeps none = s
      close_cache-Keeps (some input) =
          guarded hash _ p input.token _ _ s (elim (Option-cases (find_cache hash p input.id)) [
            | inl e ↦ rw (remove_cache-missing hash p w input.id true e) s
            | inr (r, e) ↦
                Yields-bind _ _ (remove_cache hash p input.id true w) _
                  (Returns-Yields _ (remove_cache hash p input.id true w)
                    (remove_cache-Gone hash IsHeap live p w s input.id r e))
                  λ x g. g.sound
          ])

      destroy_cache-Keeps :
          (input : Option CloseCacheIn) → Keeps hash IsHeap live (destroy_cache hash p w input)
      unfolding destroy_cache destroy_found
      destroy_cache-Keeps none = s
      destroy_cache-Keeps (some input) =
          guarded hash _ p input.token _ _ s (elim (Option-cases (find_cache hash p input.id)) [
            | inl e ↦ rw (e, destroy_found) s
            | inr (r, e) ↦ rw e (
                Returns-Yields _ (destroy_found hash p w input.id (some r)) (
                  Returns-mono _ _ (destroy_found hash p w input.id (some r))
                    (destroy_found-Gone hash IsHeap live p w s input.id r e) λ x g. g.1.sound))
          ])

    Step-IsSound :
        (p p' : Provider W T) (w w' : W)
        → Step hash p w p' w'
        → IsSound hash IsHeap live p w
        → IsSound hash IsHeap live p' w'
    Step-IsSound p p' w w' (created memory uuid out answer input e) s =
        subst (Keeps hash IsHeap live) e
          (create_cache-Keeps hash IsHeap live memory uuid out p w s input)
    Step-IsSound p p' w w' (opened memory uuid out answer input e) s =
        subst (Keeps hash IsHeap live) e
          (open_cache-Keeps hash IsHeap live memory uuid out p w s input)
    Step-IsSound p p' w w' (closed answer input e) s =
        subst (Keeps hash IsHeap live) e (close_cache-Keeps p w s input)
    Step-IsSound p p' w w' (destroyed answer input e) s =
        subst (Keeps hash IsHeap live) e (destroy_cache-Keeps p w s input)
    Step-IsSound p p' w w' (greeted input e f) s =
        subst (λ q. IsSound hash IsHeap live q w') (sym f)
          (subst (Returns (IsSound hash IsHeap live p)) e
            (hello-IsSound hash IsHeap live p w s input))
    Step-IsSound p p' w w' (summed out answer input e f) s =
        subst (λ q. IsSound hash IsHeap live q w') (sym f)
          (subst (KeepsMemory hash IsHeap live p) e
            (sum-KeepsMemory hash IsHeap live p w s out input))
    Step-IsSound p p' w w' (transferred out answer input e f) s =
        subst (λ q. IsSound hash IsHeap live q w') (sym f)
          (subst (KeepsMemory hash IsHeap live p) e
            (io-KeepsMemory hash IsHeap live p w s out input))

    -- The invariant holds after any sequence of requests, of any kind and with any contents: from a
    -- sound provider only sound ones are reachable.
    pub Reachable-IsSound :
        (p : Provider W T) (w : W) (p' : Provider W T) (w' : W)
        → IsSound hash IsHeap live p w
        → Reachable hash p w p' w'
        → IsSound hash IsHeap live p' w'
    Reachable-IsSound p w p' w' s start = s
    Reachable-IsSound p w p' w' s (next p₁ p₂ w₁ w₂ r t) =
        Step-IsSound p₁ p₂ w₁ w₂ t (Reachable-IsSound p w p₁ w₁ s r)

module _ {M W T : Type 0} (margo : Margo M) (hash : UtHash T (Cache W)) (usable : ℕ → Option ℕ)
    (strdup : Bool) (dummy : BackendImpl W) (self : Ptr) (pid : ℕ) (args : Option ProviderArgs)
    (m : M) where
  -- On a server where the provider id is free and the memory is there, eight bytes that can be used in
  -- the block for the list of backends included, and with a backend that keeps its contract,
  -- registering a provider succeeds; and whatever requests it then answers, destroying
  -- it ends with CACHERCISE_SUCCESS, has closed all its caches, and leaves the Margo instance with
  -- the RPCs and the callbacks of before.
  pub session-restores :
      (n : ℕ) (IsHeap : W → Type 0) (live : W → Ptr → Bool) (w : W)
      → CanRegister margo hash usable strdup dummy self pid args m
      → usable 1 ≡ some n
      → 8 ≤ n
      → Contract IsHeap live dummy
      → IsHeap w
      → (p : Provider W T) × (m₁ : M) × (register margo hash usable strdup dummy self pid args m
          ≡ ok (success, some p, m₁))
        × ((p' : Provider W T) (w' : W)
            → Reachable hash p w p' w'
            → Returns
                (λ (ret, m', w'').
                  (ret ≡ success)
                  × (margo.rpcs m' ≡ margo.rpcs m)
                  × (margo.callbacks m' ≡ margo.callbacks m)
                  × ((t : T) × Emptied hash IsHeap live (hash.items p'.caches) w' t w''))
                (destroy margo hash self p' m₁ w'))
  unfolding new_provider
  session-restores n IsHeap live w c u b k i = (
    registered margo hash usable strdup dummy self pid args m,
    registered_margo margo hash usable strdup dummy self pid args m,
    register-ok margo hash usable strdup dummy self pid args m n c u b,
    λ p' w' r.
        destroy-restores margo hash usable strdup dummy self pid args m IsHeap live p' w'
          (Reachable-IsSound hash IsHeap live
            (registered margo hash usable strdup dummy self pid args m) w p' w'
            (registered-IsSound margo hash usable strdup dummy self pid args m IsHeap live w k i) r)
          (Reachable-SameIds hash (registered margo hash usable strdup dummy self pid args m) w p'
            w' r),
  )
