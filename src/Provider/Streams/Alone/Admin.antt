-- ===== src/Provider/Streams/Alone/Admin.antt =====
-- The handlers of src/provider.c for the admin's RPCs, with nothing that interrupts them.
use cachercise.Base.{
  ◌≡◌, refl, ◌∙◌, String, Bool, true, false, Option, none, some, if◌then◌else◌, inl, inr, ltb,
}
use cachercise.Base.Run.{Run, ok, ◌>>=◌, Run-cases}
use cachercise.Common.{ReturnCode, err_invalid_token, success, CacheId, Ptr}
use cachercise.Backend.{BackendImpl}
use cachercise.Table.{UtHash}
use cachercise.Messages.{
  CreateCacheIn, CreateCacheOut, CloseCacheIn, CloseCacheOut, ListCachesIn, ListCachesOut,
}
use cachercise.Provider.Handlers
use cachercise.Provider.{Cache, Provider, find_cache, check_token, find_backend_impl, remove_cache}
use cachercise.Provider.Streams.{alone, Shared, remove_cache_stream}
use cachercise.Provider.Streams.Admin.{
  make_with, make_from, create_stream, open_stream, close_received, close_stream,
  destroy_found_stream, destroy_received, destroy_stream, fill_from, count_from, list_received,
  list_stream,
}
use cachercise.Provider.Streams.Alone.{alone-followed_by, install-alone, remove_cache-alone}

module _ {W T : Type 0} (hash : UtHash T (Cache W)) where
  module _ (p : Provider W T) (w : W) where
    abbrev pub packed : Run (CreateCacheOut × Provider W T × W) → Run (CreateCacheOut × Shared hash)
    packed m = m >>= λ (o, p', w'). ok (o, (p', w'))

    module _ (memory : Bool) (uuid : CacheId) (out : CreateCacheOut) where
      make-alone :
          (input : CreateCacheIn) (make : BackendImpl W → W → Run (ReturnCode × Ptr × W))
          (b : BackendImpl W)
          → alone (make_with hash memory uuid out make (some b)) (p, w)
            ≡ packed (make b w >>= Handlers.set_up hash memory uuid out p w b)
      unfolding alone make_with Handlers.set_up
      make-alone input make b = elim (Run-cases (make b w)) [
        | inr (x, e) ↦ rw e refl
        | inl ((success, c, w'), e) ↦ rw e (install-alone hash p w' memory uuid out b c)
        | inl ((r, c, w'), e) ↦ rw e refl
      ]

      make_from-alone :
          (create : BackendImpl W → Option String → W → Run (ReturnCode × Ptr × W))
          (input : CreateCacheIn)
          (rest : Option (BackendImpl W) → Run (CreateCacheOut × Provider W T × W))
          → ((o : Option (BackendImpl W))
              → alone (make_with hash memory uuid out (λ b. create b input.config) o) (p, w)
                ≡ packed (rest o))
          → alone (make_from hash memory uuid out (λ i b. create b i.config) (some input)) (p, w)
            ≡ packed (
                check_token p input.token >>= λ valid.
                if valid
                then find_backend_impl p input.type >>= rest
                else ok (record out { ret = err_invalid_token }, p, w))
      unfolding alone make_from
      make_from-alone create input rest h = elim (Run-cases (check_token p input.token)) [
        | inr (x, e) ↦ rw e refl
        | inl (false, e) ↦ rw e refl
        | inl (true, e) ↦ rw e (elim (Run-cases (find_backend_impl p input.type)) [
          | inr (x, f) ↦ rw f refl
          | inl (o, f) ↦ rw f (h o)
        ])
      ]

      create_with-alone :
          (input : CreateCacheIn) (o : Option (BackendImpl W))
          → alone (make_with hash memory uuid out (λ b. b.create_cache input.config) o) (p, w)
            ≡ packed (Handlers.create_with hash memory uuid out p w input o)
      unfolding alone make_with Handlers.create_with
      create_with-alone input none = refl
      create_with-alone input (some b) = make-alone input (λ b'. b'.create_cache input.config) b

      pub create-alone :
          (received : Option CreateCacheIn)
          → alone (create_stream hash memory uuid out received) (p, w)
            ≡ packed (Handlers.create_cache hash memory uuid out p w received)
      unfolding alone create_stream make_from make_with Handlers.create_cache Handlers.create_with
      create-alone none = refl
      create-alone (some input) =
          make_from-alone (λ b. b.create_cache) input
            (Handlers.create_with hash memory uuid out p w input) (create_with-alone input)

      open_with-alone :
          (input : CreateCacheIn) (o : Option (BackendImpl W))
          → alone (make_with hash memory uuid out (λ b. b.open_cache input.config) o) (p, w)
            ≡ packed (Handlers.open_with hash memory uuid out p w input o)
      unfolding alone make_with Handlers.open_with
      open_with-alone input none = refl
      open_with-alone input (some b) = make-alone input (λ b'. b'.open_cache input.config) b

      pub open-alone :
          (received : Option CreateCacheIn)
          → alone (open_stream hash memory uuid out received) (p, w)
            ≡ packed (Handlers.open_cache hash memory uuid out p w received)
      unfolding alone open_stream make_from make_with Handlers.open_cache Handlers.open_with
      open-alone none = refl
      open-alone (some input) =
          make_from-alone (λ b. b.open_cache) input
            (Handlers.open_with hash memory uuid out p w input) (open_with-alone input)

    abbrev pub closed : Run (CloseCacheOut × Provider W T × W) → Run (CloseCacheOut × Shared hash)
    closed m = m >>= λ (o, p', w'). ok (o, (p', w'))

    pub close-alone :
        (received : Option CloseCacheIn)
        → alone (close_stream hash received) (p, w)
          ≡ closed (Handlers.close_cache hash p w received)
    unfolding alone close_stream close_received Handlers.close_cache
    close-alone none = refl
    close-alone (some input) = elim (Run-cases (check_token p input.token)) [
      | inr (x, e) ↦ rw e refl
      | inl (false, e) ↦ rw e refl
      | inl (true, e) ↦ rw e (
          alone-followed_by (remove_cache_stream hash input.id true) _ (p, w)
          ∙ rw (remove_cache-alone hash p w input.id true)
              (elim (Run-cases (remove_cache hash p input.id true w)) [
                | inl (r, f) ↦ rw f refl
                | inr (x, f) ↦ rw f refl
              ]))
    ]

    destroy_found-alone :
        (id : CacheId) (o : Option (Cache W))
        → find_cache hash p id ≡ o
        → alone (destroy_found_stream hash id o) (p, w)
          ≡ closed (Handlers.destroy_found hash p w id o)
    unfolding alone destroy_found_stream Handlers.destroy_found
    destroy_found-alone id none e = refl
    destroy_found-alone id (some r) e = elim (Run-cases (r.fn.destroy_cache r.ctx w)) [
      | inr (x, c) ↦ rw (e, c) refl
      | inl ((ret, w₁), c) ↦
          rw (e, c)
            (alone-followed_by (remove_cache_stream hash id false) _ (p, w₁)
              ∙ rw (remove_cache-alone hash p w₁ id false)
                  (elim (Run-cases (remove_cache hash p id false w₁)) [
                    | inl (r', f) ↦ rw f refl
                    | inr (x, f) ↦ rw f refl
                  ]))
    ]

    pub destroy-alone :
        (received : Option CloseCacheIn)
        → alone (destroy_stream hash received) (p, w)
          ≡ closed (Handlers.destroy_cache hash p w received)
    unfolding alone destroy_stream destroy_received Handlers.destroy_cache
    destroy-alone none = refl
    destroy-alone (some input) = elim (Run-cases (check_token p input.token)) [
      | inr (x, e) ↦ rw e refl
      | inl (false, e) ↦ rw e refl
      | inl (true, e) ↦ rw e (destroy_found-alone input.id (find_cache hash p input.id) refl)
    ]

    count-alone :
        (memory : Bool) (out : ListCachesOut) (input : ListCachesIn) (fewer : Bool)
        → alone (count_from hash memory out input fewer) (p, w) ≡ (
            (do
              ids ← Handlers.fill_ids hash memory p.num_caches (hash.items p.caches)
              ok (record {
                ret = success;
                count = if fewer then p.num_caches else input.max_ids;
                ids = ids;
              }))
            >>= λ o. ok (o, (p, w)))
    unfolding alone count_from fill_from
    count-alone memory out input true =
        elim (Run-cases (Handlers.fill_ids hash memory p.num_caches (hash.items p.caches))) [
          | inl (ids, f) ↦ rw f refl
          | inr (x, f) ↦ rw f refl
        ]
    count-alone memory out input false =
        elim (Run-cases (Handlers.fill_ids hash memory p.num_caches (hash.items p.caches))) [
          | inl (ids, f) ↦ rw f refl
          | inr (x, f) ↦ rw f refl
        ]

    pub list-alone :
        (memory : Bool) (out : ListCachesOut) (received : Option ListCachesIn)
        → alone (list_stream hash memory out received) (p, w)
          ≡ (Handlers.list_caches hash memory out p received >>= λ o. ok (o, (p, w)))
    unfolding alone list_stream list_received Handlers.list_caches
    list-alone memory out none = refl
    list-alone memory out (some input) = elim (Run-cases (check_token p input.token)) [
      | inr (x, e) ↦ rw e refl
      | inl (false, e) ↦ rw e refl
      | inl (true, e) ↦ rw e (count-alone memory out input (ltb p.num_caches input.max_ids))
    ]
