-- ===== src/Provider/Register.antt =====
-- What registering a provider and destroying it does to the Margo instance, and the block that the
-- list of backends is kept in.
use cachercise.Base.{
  ℕ, ◌+◌, ◌*◌, ◌≤◌, ◌≡◌, ◌≢◌, refl, Bool, true, false, Option, none, some, List, [], ◌∷◌, ◌++◌,
  if◌then◌else◌, ◌==◌, arith, ◌∙◌, ltb,
}
use cachercise.Base.Run.{ok, fault, undefined, Returns, Returns-ok}
use cachercise.Common.{success, Ptr, null}
use cachercise.Backend.{BackendImpl, Contract}
use cachercise.Table.{UtHash}
use cachercise.Margo.{Margo, is_registered}
use cachercise.Provider.Sound.{IsSound}
use cachercise.Provider.Listing.{Emptied, remove_all_caches-Emptied}
use cachercise.Provider.Restores.{
  Registered, register_rpcs-Registered, register_rpcs-callbacks, deregister_rpcs-callbacks,
}
use cachercise.Provider.Lifecycle.{
  ProviderArgs, args_init, rpc_names, register_rpcs, deregister_rpcs, new_provider, register,
  finalize_provider, destroy,
}
use cachercise.Provider.{Cache, Provider, add_backend_impl, remove_all_caches}

-- The list of backends is kept in a block of as many bytes as there are backends. Where `realloc`
-- gives a block in which no more can be used than was asked for, or any less than eight bytes for
-- each pointer, adding a backend writes past its end; otherwise the backend comes last.
pub add_backend_impl-block :
    {W T : Type 0} (usable : ℕ → Option ℕ) (p : Provider W T) (b : BackendImpl W) (n : ℕ)
    → usable (p.num_backend_types + 1) ≡ some n
    → add_backend_impl usable p b ≡ (
        if ltb n ((p.num_backend_types + 1) * 8)
        then fault undefined
        else ok (
          success,
          record p {
            num_backend_types = p.num_backend_types + 1;
            backend_types = p.backend_types ++ b ∷ [];
          },
        ))
unfolding add_backend_impl
add_backend_impl-block usable p b n e = rw e

module _ {M W T : Type 0} (margo : Margo M) (hash : UtHash T (Cache W)) (usable : ℕ → Option ℕ)
    (strdup : Bool) (dummy : BackendImpl W) (self : Ptr) (pid : ℕ) (args : Option ProviderArgs)
    (m : M) where
  -- The instance is a server, the provider id is free, and `calloc` succeeds.
  pub record CanRegister : Type 0 where
    pub listening : margo.is_listening m ≡ true
    pub free : is_registered "cachercise_sum" pid (margo.rpcs m) ≡ false
    pub allocated : self ≢ null

  abbrev pub given : ProviderArgs
  given = elim args [ none ↦ args_init | some b ↦ b ]

  abbrev pub registered_ids : List ℕ
  registered_ids = (register_rpcs margo rpc_names pid given.pool m).0

  abbrev pub registered_margo : M
  registered_margo = margo.push_finalize self (register_rpcs margo rpc_names pid given.pool m).1

  -- The provider that is registered.
  abbrev pub registered : Provider W T
  registered = record (new_provider margo hash strdup pid given registered_ids) {
    num_backend_types = 1;
    backend_types = dummy ∷ [];
  }

  pub register-ok :
      (n : ℕ)
      → CanRegister
      → usable 1 ≡ some n
      → 8 ≤ n
      → register margo hash usable strdup dummy self pid args m
        ≡ ok (success, some registered, registered_margo)
  unfolding register add_backend_impl new_provider
  register-ok n c u b =
      let s : (self == null) ≡ false = ground (arith, c.allocated) in
      let t : ltb n 8 ≡ false = ground arith in rw (c.listening, c.free, s, u, t)

  -- A provider that has just been registered is sound, if the dummy backend keeps its contract and the
  -- memory of the backends is well formed.
  pub registered-IsSound :
      (IsHeap : W → Type 0) (live : W → Ptr → Bool) (w : W)
      → Contract IsHeap live dummy
      → IsHeap w
      → IsSound hash IsHeap live registered w
  unfolding new_provider
  registered-IsSound IsHeap live w k i = record {
    heap = i;
    counted = rw hash.items-empty;
    held = rw hash.items-empty tt;
    typed = refl;
    backends = (k, tt);
  }

  registration_rpcs :
      Registered margo m (register_rpcs margo rpc_names pid given.pool m).1 registered_ids
  registration_rpcs = register_rpcs-Registered margo rpc_names pid given.pool m

  -- The instance after the callback has been popped and the RPCs have been deregistered.
  abbrev pub restored : M
  restored = deregister_rpcs margo registered_ids (margo.pop_finalize self registered_margo)

  restored-rpcs : margo.rpcs restored ≡ margo.rpcs m
  restored-rpcs =
      let m₁ : M = (register_rpcs margo rpc_names pid given.pool m).1 in
      registration_rpcs.removed (margo.rpcs m) (margo.pop_finalize self registered_margo) (λ i h. h)
        (margo.pop-rpcs self registered_margo ∙ margo.push-rpcs self m₁ ∙ registration_rpcs.added)

  restored-callbacks : margo.callbacks restored ≡ margo.callbacks m
  restored-callbacks =
      let m₁ : M = (register_rpcs margo rpc_names pid given.pool m).1 in
      deregister_rpcs-callbacks margo registered_ids (margo.pop_finalize self registered_margo)
      ∙ margo.pop-push self registered_margo (margo.callbacks m₁) (margo.push-callbacks self m₁)
      ∙ register_rpcs-callbacks margo rpc_names pid given.pool m

  -- Destroying a sound provider that has the RPC ids of the registration ends with CACHERCISE_SUCCESS:
  -- it closes all the caches, and leaves the instance with the RPCs and the callbacks of before the
  -- registration.
  pub destroy-restores :
      (IsHeap : W → Type 0) (live : W → Ptr → Bool) (p : Provider W T) (w : W)
      → IsSound hash IsHeap live p w
      → p.rpc_ids ≡ registered_ids
      → Returns
          (λ (ret, m', w').
            (ret ≡ success)
            × (margo.rpcs m' ≡ margo.rpcs m)
            × (margo.callbacks m' ≡ margo.callbacks m)
            × ((t : T) × Emptied hash IsHeap live (hash.items p.caches) w t w'))
          (destroy margo hash self p registered_margo w)
  unfolding destroy finalize_provider
  destroy-restores IsHeap live p w s e =
      let (pw, run, sd) =
        Returns-ok _ (remove_all_caches hash p w)
          (remove_all_caches-Emptied hash IsHeap live p w s) in
      rw (run, e) (refl, restored-rpcs, restored-callbacks, (pw.0.caches, sd.1))
