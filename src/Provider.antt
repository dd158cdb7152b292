-- ===== src/Provider.antt =====
-- src/provider.h and the functions of src/provider.c that manipulate a provider: its table of
-- caches, its list of backends and its token. `W` is the memory of the backends, `T` the table.
pub mod Handlers
pub mod Holdings
pub mod Sound
pub mod Safety
pub mod Removal
pub mod Lifecycle
pub mod Restores
pub mod Register
pub mod Registered
pub mod Listing
pub mod Overrun
pub mod Outcomes
pub mod Undone
pub mod Backends
pub mod Creation
pub mod Requests
pub mod Streams
pub mod Sessions
use text.Mathlib.Text.{◌==◌ as str_eq}
use cachercise.Base.{
  ℕ, zero, suc, ◌+◌, ◌-◌, ◌*◌, ◌%◌, ◌^◌, Bool, true, false, String, Option, none, some, List, [],
  ◌∷◌, ◌++◌, ltb, if◌then◌else◌, get_elem?,
}
use cachercise.Base.Run.{Run, ok, fault, undefined, ◌>>=◌, defined}
use cachercise.Common.{ReturnCode, success, err_invalid_cache, CacheId, Ptr, u64}
use cachercise.Backend.{BackendImpl}
use cachercise.Table.{UtHash}

-- struct cachercise_cache, less its link into the table
pub record Cache (W : Type 0) : Type 0 where
  pub fn : BackendImpl W
  pub ctx : Ptr
  pub id : CacheId

-- struct cachercise_provider, less the Margo instance, which is passed along with it, and `hoard`,
-- which nothing uses
pub record Provider (W T : Type 0) : Type 0 where
  pub provider_id : ℕ
  pub pool : Ptr
  pub abtio : Ptr
  pub token : Option String
  pub num_backend_types : ℕ
  pub backend_types : List (BackendImpl W)
  pub num_caches : ℕ
  pub caches : T
  -- the eight RPC identifiers, in the order of their registration
  pub rpc_ids : List ℕ

-- strcmp(a, b) == 0, which is undefined when `a` is NULL
unfoldable pub strcmp_eq : Option String → String → Run Bool
strcmp_eq none t = fault undefined
strcmp_eq (some s) t = ok (str_eq s t)

-- The loop of `find_backend_impl`, at index `i` with `k` rounds left.
unfoldable pub find_loop :
    {W : Type 0} → ℕ → ℕ → Option String → List (BackendImpl W) → Run (Option (BackendImpl W))
unfolding strcmp_eq
find_loop zero i name types = ok none
find_loop (suc k) i name types = do
  impl ← defined (get_elem? types i)
  same ← strcmp_eq name impl.name
  if same then ok (some impl) else find_loop k (suc i) name types

module _ {W T : Type 0} where
  unfoldable pub check_token : Provider W T → Option String → Run Bool
  unfolding strcmp_eq
  check_token p token = elim p.token [ none ↦ ok true | some t ↦ strcmp_eq token t ]

  unfoldable pub find_backend_impl : Provider W T → Option String → Run (Option (BackendImpl W))
  unfolding find_loop
  find_backend_impl p name = find_loop p.num_backend_types 0 name p.backend_types

  -- `usable n` is what `realloc` gives when asked for `n` bytes: NULL, or a block with so many bytes
  -- that can be used. The call asks for as many bytes as there are pointers; a pointer takes eight.
  unfoldable pub add_backend_impl :
      (ℕ → Option ℕ) → Provider W T → BackendImpl W → Run (ReturnCode × Provider W T)
  add_backend_impl usable p backend = do
    let n = p.num_backend_types + 1
    bytes ← defined (usable n)
    if ltb bytes (n * 8)
        then fault undefined
        else ok (
          success,
          record p { num_backend_types = n; backend_types = p.backend_types ++ backend ∷ [] },
        )

module _ {W T : Type 0} (hash : UtHash T (Cache W)) where
  unfoldable pub find_cache : Provider W T → CacheId → Option (Cache W)
  find_cache p id = hash.find id p.caches

  unfoldable pub add_cache : Provider W T → Cache W → ReturnCode × Provider W T
  unfolding find_cache
  add_cache p cache = elim (find_cache p cache.id) [
    | some existing ↦ (err_invalid_cache, p)
    | none ↦ (
      success,
      record p { caches = hash.add cache.id cache p.caches; num_caches = u64 (p.num_caches + 1) },
    )
  ]

  -- HASH_DEL, free and the count
  unfoldable pub drop_cache : Provider W T → CacheId → Provider W T
  drop_cache p id = record p {
    caches = hash.del id p.caches;
    num_caches = u64 (p.num_caches + 2 ^ 64 - 1);
  }

  unfoldable pub remove_cache :
      Provider W T → CacheId → (close_cache : Bool) → W → Run (ReturnCode × Provider W T × W)
  unfolding find_cache drop_cache
  remove_cache p id close_cache w = elim (find_cache p id) [
    | none ↦ ok (err_invalid_cache, p, w)
    | some cache ↦ do
      (ret, w') ← if close_cache then cache.fn.close_cache cache.ctx w else ok (success, w)
      ok (ret, drop_cache p id, w')
  ]

  -- The loop of `remove_all_caches` over the items that are left.
  unfoldable pub remove_loop : List (CacheId × Cache W) → T → W → Run (T × W)
  remove_loop [] t w = ok (t, w)
  remove_loop ((k, r) ∷ rest) t w = do
    (ret, w') ← r.fn.close_cache r.ctx w
    remove_loop rest (hash.del k t) w'

  unfoldable pub remove_all_caches : Provider W T → W → Run (Provider W T × W)
  unfolding remove_loop
  remove_all_caches p w = do
    (t, w') ← remove_loop (hash.items p.caches) p.caches w
    ok (record p { caches = t; num_caches = 0 }, w')
