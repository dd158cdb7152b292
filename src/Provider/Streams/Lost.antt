-- ===== src/Provider/Streams/Lost.antt =====
-- Two creations at the same time on a provider of src/provider.c: the load and the store of `num_caches`
-- in `add_cache`.
use cachercise.Base.{
  ◌≡◌, ◌≢◌, ◌<◌, ◌+◌, refl, sym, ap, ◌∙◌, Bool, true, false, String, Option, none, some, List, [],
  ◌∷◌, ◌++◌, ◌==◌, ℕ, if◌then◌else◌, replicate, length, length-append, arith, ◌^◌,
}
use cachercise.Base.Run.{ok, fault, undefined}
use cachercise.Common.{success, CacheId, Ptr, u64}
use cachercise.Backend.{BackendImpl}
use cachercise.Table.{UtHash, lookup, lookup-append}
use cachercise.Messages.{CreateCacheIn, CreateCacheOut, ListCachesIn, ListCachesOut}
use cachercise.Provider.Handlers
use cachercise.Provider.Overrun.{list_caches-overrun}
use cachercise.Provider.Sound.{IsSound}
use cachercise.Provider.{Cache, Provider, check_token, find_backend_impl, find_cache}
use cachercise.Provider.Streams.{
  Stream, done, access, followed_by, turn, System, interleave, Shared, stores, count,
  add_cache_stream,
}
use cachercise.Provider.Streams.Admin.{create_stream, make_from, make_with, install_stream}
use cachercise.Provider.Streams.Requests.{create_cache, Answer, handler, made}
use cachercise.Provider.Streams.Schedules.{take_turns, advance, Advanced-then}

module _ {W T : Type 0} (hash : UtHash T (Cache W)) where
  -- A creation that a provider accepts.
  pub record Accepts (p : Provider W T) (w : W) (uuid : CacheId) (input : CreateCacheIn)
      (b : BackendImpl W) (c : Ptr) (w' : W) : Type 0 where
    pub admitted : check_token p input.token ≡ ok true
    pub backend : find_backend_impl p input.type ≡ ok (some b)
    pub creates : b.create_cache input.config w ≡ ok (success, c, w')
    pub unused : find_cache hash p uuid ≡ none

  abbrev with_cache : BackendImpl W → Provider W T → CacheId → Ptr → Provider W T
  with_cache b p uuid c = record p {
    caches = hash.add uuid (record { fn = b; ctx = c; id = uuid }) p.caches;
  }

  -- What is left of a creation after the load of the count.
  abbrev stored : Provider W T → CacheId → Stream (Shared hash) Answer
  stored p uuid =
      access (stores hash (λ q. record q { num_caches = u64 (p.num_caches + 1) }))
        λ _. done (made (record { ret = success; id = uuid }))

  module _ (out : CreateCacheOut) (input : CreateCacheIn) (b : BackendImpl W)
      (p : Provider W T) where
    to_load :
        (w w' : W) (uuid : CacheId) (c : Ptr)
        → Accepts p w uuid input b c w'
        → take_turns 7 (handler hash (create_cache true uuid out (some input))) (p, w)
          ≡ ok (stored p uuid, (with_cache b p uuid c, w'))
    unfolding take_turns turn handler followed_by create_stream make_from make_with install_stream
        add_cache_stream count
    to_load w w' uuid c a = rw a.admitted (rw a.backend (rw a.creates (rw a.unused refl)))

    pub whole :
        (w w' : W) (uuid : CacheId) (c : Ptr)
        → Accepts p w uuid input b c w'
        → take_turns 8 (handler hash (create_cache true uuid out (some input))) (p, w)
          ≡ ok (
            done (made (record { ret = success; id = uuid })),
            (record (with_cache b p uuid c) { num_caches = u64 (p.num_caches + 1) }, w'),
          )
    unfolding take_turns turn handler followed_by create_stream make_from make_with install_stream
        add_cache_stream count
    whole w w' uuid c a = rw a.admitted (rw a.backend (rw a.creates (rw a.unused refl)))

  -- The last turn of a creation, when the count is already what it stores.
  stores_once :
      (p q : Provider W T) (w : W) (uuid : CacheId)
      → q.num_caches ≡ u64 (p.num_caches + 1)
      → take_turns 1 (stored p uuid) (q, w)
        ≡ ok (done (made (record { ret = success; id = uuid })), (q, w))
  unfolding take_turns turn
  stores_once p q w uuid e =
      ap
        (λ n.
          ok (done (made (record { ret = success; id = uuid })), (record q { num_caches = n }, w)))
        (sym e)

  same_token :
      (p : Provider W T) (t : T) (n : ℕ) (token : Option String)
      → check_token (record p { caches = t; num_caches = n }) token ≡ check_token p token
  unfolding check_token
  same_token p t n token = refl

  same_backends :
      (p : Provider W T) (t : T) (name : Option String)
      → find_backend_impl (record p { caches = t }) name ≡ find_backend_impl p name
  unfolding find_backend_impl
  same_backends p t name = refl

  find_cache-add :
      (p : Provider W T) (r : Cache W) (id : CacheId)
      → find_cache hash p r.id ≡ none
      → find_cache hash p id ≡ none
      → (r.id == id) ≡ false
      → find_cache hash (record p { caches = hash.add r.id r p.caches }) id ≡ none
  unfolding find_cache lookup
  find_cache-add p r id e f n =
      let there : lookup id (hash.items p.caches) ≡ none = sym (hash.find-items id p.caches) ∙ f in
      rw
        (
          hash.find-items id (hash.add r.id r p.caches),
          hash.items-add r.id r p.caches e,
          lookup-append id (hash.items p.caches) ((r.id, r) ∷ []),
          there,
          n,
        )
        refl

  Accepts-later :
      (p : Provider W T) (w w' : W) (r : Cache W) (uuid : CacheId) (input : CreateCacheIn)
      (b : BackendImpl W) (c : Ptr)
      → find_cache hash p r.id ≡ none
      → (r.id == uuid) ≡ false
      → Accepts p w uuid input b c w'
      → Accepts (record p { caches = hash.add r.id r p.caches }) w uuid input b c w'
  Accepts-later p w w' r uuid input b c e n a = record {
    admitted = same_token p _ _ input.token ∙ a.admitted;
    backend = same_backends p _ input.type ∙ a.backend;
    creates = a.creates;
    unused = find_cache-add p r uuid e a.unused n;
  }

module _ {W T : Type 0} (hash : UtHash T (Cache W)) (IsHeap : W → Type 0)
    (live : W → Ptr → Bool) where
  -- Two creations that have both succeeded, with a count for one of them.
  pub record Miscounted (p : Provider W T) (uuid₁ uuid₂ : CacheId) (s : System (Shared hash) Answer)
      : Type 1 where
    pub first : s.stream 0 ≡ done (made (record { ret = success; id = uuid₁ }))
    pub second : s.stream 1 ≡ done (made (record { ret = success; id = uuid₂ }))
    pub caches : length (hash.items s.shared.0.caches) ≡ length (hash.items p.caches) + 2
    pub counted : s.shared.0.num_caches ≡ length (hash.items p.caches) + 1
    pub overrun :
        (memory : Bool) (out : ListCachesOut) (input : ListCachesIn)
        → check_token p input.token ≡ ok true
        → Handlers.list_caches hash memory out s.shared.0 (some input) ≡ fault undefined

  module _ (p : Provider W T) (w w₁ w₂ : W) (uuid₁ uuid₂ : CacheId) (out₁ out₂ : CreateCacheOut)
      (input₁ input₂ : CreateCacheIn) (b₁ b₂ : BackendImpl W) (c₁ c₂ : Ptr) where
    abbrev after_first : Provider W T
    after_first = with_cache hash b₁ p uuid₁ c₁

    abbrev after_both : Provider W T
    after_both = record (with_cache hash b₂ after_first uuid₂ c₂) {
      num_caches = u64 (p.num_caches + 1);
    }

    both-items :
        find_cache hash p uuid₁ ≡ none
        → find_cache hash after_first uuid₂ ≡ none
        → length (hash.items after_both.caches) ≡ length (hash.items p.caches) + 2
    unfolding find_cache
    both-items e f =
        let new₁ : Cache W = record { fn = b₁; ctx = c₁; id = uuid₁ } in
        let new₂ : Cache W = record { fn = b₂; ctx = c₂; id = uuid₂ } in
        rw (hash.items-add uuid₂ new₂ after_first.caches f, hash.items-add uuid₁ new₁ p.caches e)
          (omega (
            arith,
            length-append (hash.items p.caches ++ (uuid₁, new₁) ∷ []) ((uuid₂, new₂) ∷ []),
            length-append (hash.items p.caches) ((uuid₁, new₁) ∷ []),
          ))

    -- On a sound provider, let two admins create a cache at the same time, under ids that differ, where
    -- the provider accepts each and the table has fewer than 2^31 - 1 caches. Then there is an order of
    -- the steps of the two handlers in which both answer CACHERCISE_SUCCESS and the table gets both caches, but
    -- the count grows by one; and from then on `list_caches` writes past the end of its array.
    pub creations-miscount :
        IsSound hash IsHeap live p w
        → length (hash.items p.caches) + 1 < 2 ^ 31
        → uuid₁ ≢ uuid₂
        → Accepts hash p w uuid₁ input₁ b₁ c₁ w₁
        → Accepts hash p w₁ uuid₂ input₂ b₂ c₂ w₂
        → (schedule : List ℕ) × (s : System (Shared hash) Answer) × (interleave schedule (record {
          shared = (p, w);
          stream = λ t.
              if t == 0
              then handler hash (create_cache true uuid₁ out₁ (some input₁))
              else handler hash (create_cache true uuid₂ out₂ (some input₂));
        })
            ≡ ok s)
          × Miscounted p uuid₁ uuid₂ s
    unfolding interleave turn
    creations-miscount sound few differ a b =
        let first = handler hash (create_cache true uuid₁ out₁ (some input₁)) in
        let second = handler hash (create_cache true uuid₂ out₂ (some input₂)) in
        let f₀ : ℕ → Stream (Shared hash) Answer = λ t. if t == 0 then first else second in
        let new₁ : Cache W = record { fn = b₁; ctx = c₁; id = uuid₁ } in
        let apart : (uuid₁ == uuid₂) ≡ false = ground arith in
        let b' = Accepts-later hash p w₁ w₂ new₁ uuid₂ input₂ b₂ c₂ a.unused apart b in
        let loaded =
          advance 0 7 first _ f₀ (p, w) (after_first, w₁) refl
            (to_load hash out₁ input₁ b₁ p w w₁ uuid₁ c₁ a) in
        let ended =
          advance 1 8 second _ loaded.stream (after_first, w₁) (after_both, w₂)
            (loaded.others 1 refl) (whole hash out₂ input₂ b₂ after_first w₁ w₂ uuid₂ c₂ b') in
        let stored =
          advance 0 1 _ _ ended.stream (after_both, w₂) (after_both, w₂)
            (ended.others 0 refl ∙ loaded.reached) (stores_once hash p after_both w₂ uuid₁ refl) in
        let items = both-items a.unused b'.unused in
        let counts = sound.counted in
        let one : u64 (p.num_caches + 1) ≡ length (hash.items p.caches) + 1 =
          omega (arith, counts, few) in
        (
          replicate 7 0 ++ replicate 8 1 ++ replicate 1 0,
          record { shared = (after_both, w₂); stream = stored.stream },
          Advanced-then (replicate 8 1 ++ replicate 1 0) loaded
              ∙ Advanced-then (replicate 1 0) ended
              ∙ stored.run,
          record {
            first = stored.reached;
            second = stored.others 1 refl ∙ ended.reached;
            caches = items;
            counted = one;
            overrun = λ memory out input c.
                list_caches-overrun hash memory out after_both input
                  (same_token hash p _ _ input.token ∙ c) (omega (arith, items, one))
                  (omega (arith, one, few));
          },
        )
