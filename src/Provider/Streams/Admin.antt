-- ===== src/Provider/Streams/Admin.antt =====
-- The handlers of src/provider.c for the admin's RPCs, as streams.
use cachercise.Base.{ℕ, Bool, true, false, Option, none, some, ltb, if◌then◌else◌}
use cachercise.Base.Run.{Run, ok, fault, undefined, ◌>>=◌}
use cachercise.Common.{
  ReturnCode, success, err_from_mercury, err_invalid_token, err_invalid_backend, err_invalid_cache,
  is_success, CacheId, Ptr,
}
use cachercise.Backend.{BackendImpl}
use cachercise.Table.{UtHash}
use cachercise.Messages.{
  CreateCacheIn, CreateCacheOut, CloseCacheIn, CloseCacheOut, ListCachesIn, ListCachesOut,
}
use cachercise.Provider.Handlers.{fill_ids}
use cachercise.Provider.{Cache, find_backend_impl, find_cache}
use cachercise.Provider.Streams.{
  Stream, done, access, followed_by, Shared, reads, uses, get_input, admitted, add_cache_stream,
  remove_cache_stream,
}

module _ {W T : Type 0} (hash : UtHash T (Cache W)) where
  module _ (memory : Bool) (uuid : CacheId) (out : CreateCacheOut) where
    unfoldable pub install_stream : BackendImpl W → Ptr → Stream (Shared hash) CreateCacheOut
    unfolding add_cache_stream followed_by
    install_stream backend context =
        if memory
        then (followed_by
            (add_cache_stream hash (record { fn = backend; ctx = context; id = uuid }))
            λ _. done (record { ret = success; id = uuid }))
        else access (λ s. fault undefined) done

    -- The handlers of the creation and of the opening differ in the backend's function that they
    -- call.
    unfoldable pub make_with :
        (BackendImpl W → W → Run (ReturnCode × Ptr × W))
        → Option (BackendImpl W)
        → Stream (Shared hash) CreateCacheOut
    unfolding install_stream
    make_with make none = done (record out { ret = err_invalid_backend })
    make_with make (some backend) =
        access (λ (p, w). do (ret, context, w') ← make backend w; ok ((ret, context), (p, w')))
          λ (ret, context).
            if is_success ret
            then install_stream backend context
            else done (record out { ret = ret })

    unfoldable pub make_from :
        (CreateCacheIn → BackendImpl W → W → Run (ReturnCode × Ptr × W))
        → Option CreateCacheIn
        → Stream (Shared hash) CreateCacheOut
    unfolding make_with
    make_from make none = done (record out { ret = err_from_mercury })
    make_from make (some input) =
        admitted hash input.token (record out { ret = err_invalid_token })
          (access (reads hash (λ p. find_backend_impl p input.type)) (make_with (make input)))

    unfoldable pub create_stream : Option CreateCacheIn → Stream (Shared hash) CreateCacheOut
    unfolding make_from
    create_stream received =
        access (get_input hash received) (make_from (λ input b. b.create_cache input.config))

    unfoldable pub open_stream : Option CreateCacheIn → Stream (Shared hash) CreateCacheOut
    unfolding make_from
    open_stream received =
        access (get_input hash received) (make_from (λ input b. b.open_cache input.config))

  unfoldable pub close_received : Option CloseCacheIn → Stream (Shared hash) CloseCacheOut
  unfolding remove_cache_stream followed_by
  close_received none = done (record { ret = err_from_mercury })
  close_received (some input) =
      admitted hash input.token (record { ret = err_invalid_token })
        (followed_by (remove_cache_stream hash input.id true) λ ret. done (record { ret = ret }))

  unfoldable pub close_stream : Option CloseCacheIn → Stream (Shared hash) CloseCacheOut
  unfolding close_received
  close_stream received = access (get_input hash received) close_received

  unfoldable pub destroy_found_stream :
      CacheId → Option (Cache W) → Stream (Shared hash) CloseCacheOut
  unfolding remove_cache_stream followed_by
  destroy_found_stream id none = done (record { ret = err_invalid_cache })
  destroy_found_stream id (some _) =
      access (uses hash id (λ r w. r.fn.destroy_cache r.ctx w))
        λ _. followed_by (remove_cache_stream hash id false) λ ret. done (record { ret = ret })

  unfoldable pub destroy_received : Option CloseCacheIn → Stream (Shared hash) CloseCacheOut
  unfolding destroy_found_stream
  destroy_received none = done (record { ret = err_from_mercury })
  destroy_received (some input) =
      admitted hash input.token (record { ret = err_invalid_token })
        (access (reads hash (λ p. ok (find_cache hash p input.id))) (destroy_found_stream input.id))

  unfoldable pub destroy_stream : Option CloseCacheIn → Stream (Shared hash) CloseCacheOut
  unfolding destroy_received
  destroy_stream received = access (get_input hash received) destroy_received

  -- The walk over the table, which is taken as one access, writes to the array that `calloc` gives for
  -- the `num_caches` of then.
  unfoldable pub fill_from :
      Bool → ListCachesOut → ListCachesIn → ℕ → Stream (Shared hash) ListCachesOut
  unfolding fill_ids
  fill_from memory out input count = access (reads hash (λ p. ok p.num_caches)) λ size.
      access (reads hash (λ p. fill_ids hash memory size (hash.items p.caches)))
        λ ids. done (record { ret = success; count = count; ids = ids })

  -- `out.count`: `num_caches` is loaded once more if it is the smaller.
  unfoldable pub count_from :
      Bool → ListCachesOut → ListCachesIn → (fewer : Bool) → Stream (Shared hash) ListCachesOut
  unfolding fill_from
  count_from memory out input true =
      access (reads hash (λ p. ok p.num_caches)) (fill_from memory out input)
  count_from memory out input false = fill_from memory out input input.max_ids

  unfoldable pub list_received :
      (memory : Bool) → ListCachesOut → Option ListCachesIn → Stream (Shared hash) ListCachesOut
  unfolding count_from
  list_received memory out none = done (record out { ret = err_from_mercury; ids = none })
  list_received memory out (some input) =
      admitted hash input.token (record out { ret = err_invalid_token; ids = none })
        (access (reads hash (λ p. ok p.num_caches))
          (λ n. count_from memory out input (ltb n input.max_ids)))

  unfoldable pub list_stream :
      (memory : Bool) → ListCachesOut → Option ListCachesIn → Stream (Shared hash) ListCachesOut
  unfolding list_received
  list_stream memory out received = access (get_input hash received) (list_received memory out)
