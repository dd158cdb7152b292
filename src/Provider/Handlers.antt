-- ===== src/Provider/Handlers.antt =====
-- The RPC handlers of src/provider.c. A handler gets what `margo_get_input` gave (`none` when it
-- failed), and the contents that its uninitialised `out` has on the stack; it returns the `out` that
-- it hands to `margo_respond`, and the provider and the backends' memory as it leaves them. `memory`
-- says whether `calloc` succeeds, and `uuid` is what `uuid_generate` makes. The log, and giving
-- back the input and the handle at the end of every path, are left out.
use cachercise.Base.{
  ℕ, ◌+◌, ◌*◌, Bool, true, false, Option, none, some, List, [], ◌∷◌, ltb, if◌then◌else◌, length,
  set, replicate,
}
use cachercise.Base.Run.{Run, ok, fault, undefined, ◌>>=◌}
use cachercise.Common.{
  ReturnCode, success, err_from_mercury, err_invalid_token, err_invalid_backend, err_invalid_cache,
  is_success, CacheId, Ptr, u64, to_int32,
}
use cachercise.Backend.{BackendImpl}
use cachercise.Table.{UtHash}
use cachercise.Messages.{
  CreateCacheIn, CreateCacheOut, CloseCacheIn, CloseCacheOut, ListCachesIn, ListCachesOut, HelloIn,
  SumIn, SumOut, IoIn, IoOut,
}
use cachercise.Provider.{
  Cache, Provider, check_token, find_backend_impl, find_cache, add_cache, remove_cache,
}

-- The caller's buffer behind `&in.scratch`: one `int64_t`.
unfoldable pub scratch_of : List ℕ → ℕ → ℕ
scratch_of [] old = old
scratch_of (x ∷ xs) old = x

module _ {W T : Type 0} (hash : UtHash T (Cache W)) where
  -- Allocate a cache, set it up and add it to the provider. What `add_cache` returns is not read.
  unfoldable pub install :
      (memory : Bool) (uuid : CacheId)
      → BackendImpl W
      → Ptr
      → Provider W T
      → W
      → Run (CreateCacheOut × Provider W T × W)
  unfolding add_cache
  install false uuid backend context p w = fault undefined
  install true uuid backend context p w = ok (
    record { ret = success; id = uuid },
    (add_cache hash p (record { fn = backend; ctx = context; id = uuid })).1,
    w,
  )

  module _ (memory : Bool) (uuid : CacheId) (out : CreateCacheOut) (p : Provider W T) (w : W) where
    -- From the backend's answer on.
    unfoldable pub set_up :
        BackendImpl W → ReturnCode × Ptr × W → Run (CreateCacheOut × Provider W T × W)
    unfolding install
    set_up backend (ret, context, w') =
        if is_success ret
        then install memory uuid backend context p w'
        else ok (record out { ret = ret }, p, w')

    unfoldable pub create_with :
        CreateCacheIn → Option (BackendImpl W) → Run (CreateCacheOut × Provider W T × W)
    unfolding set_up
    create_with input none = ok (record out { ret = err_invalid_backend }, p, w)
    create_with input (some backend) = backend.create_cache input.config w >>= set_up backend

    unfoldable pub open_with :
        CreateCacheIn → Option (BackendImpl W) → Run (CreateCacheOut × Provider W T × W)
    unfolding set_up
    open_with input none = ok (record out { ret = err_invalid_backend }, p, w)
    open_with input (some backend) = backend.open_cache input.config w >>= set_up backend

    unfoldable pub create_cache : Option CreateCacheIn → Run (CreateCacheOut × Provider W T × W)
    unfolding create_with check_token find_backend_impl
    create_cache none = ok (record out { ret = err_from_mercury }, p, w)
    create_cache (some input) = do
      valid ← check_token p input.token
      if valid
          then find_backend_impl p input.type >>= create_with input
          else ok (record out { ret = err_invalid_token }, p, w)

    unfoldable pub open_cache : Option CreateCacheIn → Run (CreateCacheOut × Provider W T × W)
    unfolding open_with check_token find_backend_impl
    open_cache none = ok (record out { ret = err_from_mercury }, p, w)
    open_cache (some input) = do
      valid ← check_token p input.token
      if valid
          then find_backend_impl p input.type >>= open_with input
          else ok (record out { ret = err_invalid_token }, p, w)

  module _ (p : Provider W T) (w : W) where
    unfoldable pub close_cache : Option CloseCacheIn → Run (CloseCacheOut × Provider W T × W)
    unfolding check_token remove_cache
    close_cache none = ok (record { ret = err_from_mercury }, p, w)
    close_cache (some input) = do
      valid ← check_token p input.token
      if valid
          then (do
            (ret, p', w') ← remove_cache hash p input.id true w
            ok (record { ret = ret }, p', w'))
          else ok (record { ret = err_invalid_token }, p, w)

    unfoldable pub destroy_found :
        CacheId → Option (Cache W) → Run (CloseCacheOut × Provider W T × W)
    unfolding remove_cache
    destroy_found id none = ok (record { ret = err_invalid_cache }, p, w)
    destroy_found id (some cache) = do
      (r, w₁) ← cache.fn.destroy_cache cache.ctx w
      (ret, p', w₂) ← remove_cache hash p id false w₁
      ok (record { ret = ret }, p', w₂)

    unfoldable pub destroy_cache : Option CloseCacheIn → Run (CloseCacheOut × Provider W T × W)
    unfolding check_token find_cache destroy_found
    destroy_cache none = ok (record { ret = err_from_mercury }, p, w)
    destroy_cache (some input) = do
      valid ← check_token p input.token
      if valid
          then destroy_found input.id (find_cache hash p input.id)
          else ok (record { ret = err_invalid_token }, p, w)

  -- The loop over the caches; the index is an `unsigned`.
  unfoldable pub fill : ℕ → List CacheId → List (CacheId × Cache W) → Run (List CacheId)
  fill i ids [] = ok ids
  fill i ids ((k, r) ∷ rest) =
      if ltb i (length ids) then fill (to_int32 (i + 1)) (set ids i r.id) rest else fault undefined

  -- An array that `calloc` did not give cannot be written to.
  unfoldable pub fill_ids :
      (memory : Bool) → ℕ → List (CacheId × Cache W) → Run (Option (List CacheId))
  unfolding fill
  fill_ids true n items = do ids ← fill 0 (replicate n 0) items; ok (some ids)
  fill_ids false n [] = ok none
  fill_ids false n (x ∷ xs) = fault undefined

  unfoldable pub list_caches :
      (memory : Bool) → ListCachesOut → Provider W T → Option ListCachesIn → Run ListCachesOut
  unfolding check_token fill_ids
  list_caches memory out p none = ok (record out { ret = err_from_mercury; ids = none })
  list_caches memory out p (some input) = do
    valid ← check_token p input.token
    if valid
        then (do
          ids ← fill_ids memory p.num_caches (hash.items p.caches)
          ok (record {
            ret = success;
            count = if ltb p.num_caches input.max_ids then p.num_caches else input.max_ids;
            ids = ids;
          }))
        else ok (record out { ret = err_invalid_token; ids = none })

  module _ (p : Provider W T) (w : W) where
    unfoldable pub hello_found : Option (Cache W) → Run W
    hello_found none = ok w
    hello_found (some cache) = cache.fn.hello cache.ctx w

    -- `hello` does not respond.
    unfoldable pub hello : Option HelloIn → Run W
    unfolding find_cache hello_found
    hello none = ok w
    hello (some input) = hello_found (find_cache hash p input.cache_id)

    unfoldable pub sum_found : SumOut → SumIn → Option (Cache W) → Run (SumOut × W)
    sum_found out input none = ok (record out { ret = err_invalid_cache }, w)
    sum_found out input (some cache) = do
      (result, w') ← cache.fn.sum cache.ctx input.x input.y w
      ok (record { result = result; ret = success }, w')

    unfoldable pub sum : SumOut → Option SumIn → Run (SumOut × W)
    unfolding find_cache sum_found
    sum out none = ok (record out { ret = err_from_mercury }, w)
    sum out (some input) = sum_found out input (find_cache hash p input.cache_id)

    unfoldable pub io_found : IoOut → IoIn → Option (Cache W) → Run (IoOut × W)
    unfolding scratch_of
    io_found out input none = ok (record out { ret = err_invalid_cache }, w)
    io_found out input (some cache) = do
      (result, buffer, w') ←
          cache.fn.io cache.ctx input.count input.offset (input.scratch ∷ []) (to_int32 input.kind)
            w
      ok (
        record {
          bytes = u64 (result * 8);
          scratch = scratch_of buffer input.scratch;
          result = result;
          ret = success;
        },
        w',
      )

    unfoldable pub io : IoOut → Option IoIn → Run (IoOut × W)
    unfolding find_cache io_found
    io out none = ok (record out { ret = err_from_mercury }, w)
    io out (some input) = io_found out input (find_cache hash p input.cache_id)
