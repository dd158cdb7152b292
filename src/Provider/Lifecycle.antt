-- ===== src/Provider/Lifecycle.antt =====
-- cachercise_provider_register, cachercise_provider_destroy and the finalize callback of
-- src/provider.c. The eight RPCs are registered, and deregistered, in the order of `rpc_names`.
use cachercise.Base.{Bool, ℕ, not, String, Option, none, some, List, [], ◌∷◌, if◌then◌else◌, ◌==◌}
use cachercise.Base.Run.{Run, ok, ◌>>=◌}
use cachercise.Common.{
  ReturnCode, success, err_allocation, err_invalid_args, err_invalid_provider, Ptr, null,
}
use cachercise.Backend.{BackendImpl}
use cachercise.Table.{UtHash}
use cachercise.Margo.{Margo, is_registered}
use cachercise.Provider.{Cache, Provider, add_backend_impl, remove_all_caches}

-- struct cachercise_provider_args, less the configuration, which nothing reads
pub record ProviderArgs : Type 0 where
  pub token : Option String
  pub pool : Ptr
  pub abtio : Ptr

-- CACHERCISE_PROVIDER_ARGS_INIT
abbrev pub args_init : ProviderArgs
args_init = record { token = none; pool = null; abtio = null }

abbrev pub rpc_names : List String
rpc_names =
    "cachercise_create_cache" ∷ "cachercise_open_cache" ∷ "cachercise_close_cache"
    ∷ "cachercise_destroy_cache" ∷ "cachercise_list_caches" ∷ "cachercise_hello" ∷ "cachercise_sum"
    ∷ "cachercise_io" ∷ []

-- A token that is NULL or empty is none, and so is one that strdup has no memory for a copy of.
unfoldable pub set_token : (strdup : Bool) → Option String → Option String
set_token strdup none = none
set_token strdup (some String.[]) = none
set_token strdup (some (String.◌∷◌ c s)) = if strdup then some (String.◌∷◌ c s) else none

module _ {M : Type 0} (margo : Margo M) where
  -- The RPC ids come in the order of the names.
  unfoldable pub register_rpcs : List String → ℕ → Ptr → M → List ℕ × M
  register_rpcs [] pid pool m = ([], m)
  register_rpcs (name ∷ names) pid pool m =
      let (id, m₁) = margo.register name pid pool m in
      let (ids, m₂) = register_rpcs names pid pool m₁ in (id ∷ ids, m₂)

  unfoldable pub deregister_rpcs : List ℕ → M → M
  deregister_rpcs [] m = m
  deregister_rpcs (id ∷ ids) m = deregister_rpcs ids (margo.deregister id m)

  module _ {W T : Type 0} (hash : UtHash T (Cache W)) where
    -- The fields that are set before any RPC is registered; `calloc` has cleared the others.
    unfoldable pub new_provider : (strdup : Bool) → ℕ → ProviderArgs → List ℕ → Provider W T
    unfolding set_token
    new_provider strdup provider_id a ids = record {
      provider_id = provider_id;
      pool = a.pool;
      abtio = a.abtio;
      token = set_token strdup a.token;
      num_backend_types = 0;
      backend_types = [];
      num_caches = 0;
      caches = hash.empty;
      rpc_ids = ids;
    }

    -- `self` is the address that `calloc` gives, or NULL; `strdup` says that strdup gives a copy; `dummy` is the backend that is compiled in.
    -- The provider comes back where there is one.
    unfoldable pub register :
        (usable : ℕ → Option ℕ) (strdup : Bool) (dummy : BackendImpl W) (self : Ptr)
        → ℕ
        → Option ProviderArgs
        → M
        → Run (ReturnCode × Option (Provider W T) × M)
    register usable strdup dummy self provider_id args m =
        let a : ProviderArgs = elim args [ none ↦ args_init | some b ↦ b ] in
        if not (margo.is_listening m)
        then ok (err_invalid_args, none, m)
        else if is_registered "cachercise_sum" provider_id (margo.rpcs m)
        then ok (err_invalid_provider, none, m)
        else if self == null
        then ok (err_allocation, none, m)
        else (do
          let (ids, m₁) = register_rpcs rpc_names provider_id a.pool m
          (ret, p) ← add_backend_impl usable (new_provider strdup provider_id a ids) dummy
          ok (success, some p, margo.push_finalize self m₁))

    unfoldable pub finalize_provider : Provider W T → M → W → Run (M × W)
    finalize_provider p m w = do
      let m' = deregister_rpcs p.rpc_ids m
      (p', w') ← remove_all_caches hash p w
      ok (m', w')

    unfoldable pub destroy : (self : Ptr) → Provider W T → M → W → Run (ReturnCode × M × W)
    destroy self p m w = do
      (m', w') ← finalize_provider p (margo.pop_finalize self m) w
      ok (success, m', w')

-- cachercise_provider_register_backend
unfoldable pub register_backend :
    {W T : Type 0} → (ℕ → Option ℕ) → Provider W T → BackendImpl W → Run (ReturnCode × Provider W T)
unfolding add_backend_impl
register_backend usable p backend = add_backend_impl usable p backend
