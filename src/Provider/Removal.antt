-- ===== src/Provider/Removal.antt =====
-- Removing and destroying a cache of the table of src/provider.c.
use cachercise.Base.{◌≡◌, refl, Bool, true, false, none, some, ◌==◌}
use cachercise.Base.Run.{Returns, Returns-bind}
use cachercise.Common.{success, CacheId, Ptr}
use cachercise.Backend.{Released}
use cachercise.Table.{UtHash, lookup-erase_ne}
use cachercise.Provider.Holdings.{lookup-erase_self}
use cachercise.Provider.Sound.{IsSound, find_cache-Held, drop_cache-IsSound, Released-KeepsOthers}
use cachercise.Provider.Handlers.{destroy_found}
use cachercise.Provider.{Cache, Provider, find_cache, drop_cache, remove_cache}

module _ {W T : Type 0} (hash : UtHash T (Cache W)) (IsHeap : W → Type 0)
    (live : W → Ptr → Bool) where
  -- The cache `r` at `id` is gone: no other cache has changed, its context alone has been given
  -- back, and the provider is sound.
  pub record Gone (p : Provider W T) (w : W) (id : CacheId) (r : Cache W) (p' : Provider W T)
      (w' : W) : Type 0 where
    pub sound : IsSound hash IsHeap live p' w'
    pub absent : find_cache hash p' id ≡ none
    pub others : (j : CacheId) → (id == j) ≡ false → find_cache hash p' j ≡ find_cache hash p j
    pub released : Released IsHeap live w r.ctx w'
    pub same_token : p'.token ≡ p.token
    pub same_backends : p'.backend_types ≡ p.backend_types

  module _ (p : Provider W T) (w : W) (s : IsSound hash IsHeap live p w) where
    drop_cache-Gone :
        (id : CacheId) (r : Cache W) (w' : W)
        → find_cache hash p id ≡ some r
        → IsHeap w'
        → Released IsHeap live w r.ctx w'
        → Gone p w id r (drop_cache hash p id) w'
    unfolding drop_cache find_cache
    drop_cache-Gone id r w' e i l = record {
      sound =
          drop_cache-IsSound hash IsHeap live p w w' id r s e i
            (Released-KeepsOthers hash IsHeap live w r.ctx w' l);
      absent =
          rw (hash.find-items id (hash.del id p.caches), hash.items-del id p.caches)
            (lookup-erase_self IsHeap live w id (hash.items p.caches) s.held);
      others = λ j n.
          rw
            (
              hash.find-items j (hash.del id p.caches),
              hash.items-del id p.caches,
              hash.find-items j p.caches,
            )
            (lookup-erase_ne id j (hash.items p.caches) n);
      released = l;
      same_token = refl;
      same_backends = refl;
    }

    -- Removing a cache of the table, and closing it, ends.
    pub remove_cache-Gone :
        (id : CacheId) (r : Cache W)
        → find_cache hash p id ≡ some r
        → Returns (λ (ret, p', w'). Gone p w id r p' w') (remove_cache hash p id true w)
    unfolding remove_cache
    remove_cache-Gone id r e =
        let h = find_cache-Held hash IsHeap live p w id r s e in
        rw (e, remove_cache)
          (Returns-bind _ _ (r.fn.close_cache r.ctx w) _ (h.contract.closes r.ctx w s.heap h.in_use)
            λ (ret, w') (i, l). drop_cache-Gone id r w' e i l)

    -- Destroying a cache of the table ends, with CACHERCISE_SUCCESS.
    pub destroy_found-Gone :
        (id : CacheId) (r : Cache W)
        → find_cache hash p id ≡ some r
        → Returns
            (λ (out, p', w'). (out.ret ≡ success) × Gone p w id r p' w')
            (destroy_found hash p w id (some r))
    unfolding destroy_found remove_cache
    destroy_found-Gone id r e =
        let h = find_cache-Held hash IsHeap live p w id r s e in
        Returns-bind _ _ (r.fn.destroy_cache r.ctx w) _
          (h.contract.destroys r.ctx w s.heap h.in_use)
          λ (ret, w') (i, l). rw (e, remove_cache) (refl, drop_cache-Gone id r w' e i l)
