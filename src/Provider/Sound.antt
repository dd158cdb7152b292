-- ===== src/Provider/Sound.antt =====
-- The invariant of a provider of src/provider.c, and the functions on its table.
use cachercise.Base.{
  ℕ, zero, suc, ◌%◌, ◌^◌, ◌≡◌, sym, String, Bool, true, Option, some, List, [], ◌∷◌, arith, length,
  length-append, get_elem?, Option-cases, Bool-cases, inl, inr, ◌∙◌,
}
use cachercise.Base.Run.{Yields, Run-cases}
use cachercise.Common.{CacheId, Ptr}
use cachercise.Backend.{BackendImpl, Contract, Released}
use cachercise.Table.{UtHash, lookup, length-erase}
use mathlib.Core.Path.{subst}
use mathlib.Core.Option.{some-injective}
use cachercise.Provider.Holdings.{
  Held, AllHeld, Unshared, AllHeld-mono, AllHeld-append, AllHeld-erase, KeepsOthers, lookup-Held,
}
use cachercise.Provider.{
  Cache, Provider, find_cache, add_cache, drop_cache, find_loop, find_backend_impl, strcmp_eq,
}

module _ {W T : Type 0} (hash : UtHash T (Cache W)) (IsHeap : W → Type 0)
    (live : W → Ptr → Bool) where
  abbrev pub AllContract : List (BackendImpl W) → Type 0
  AllContract [] = Unit {0}
  AllContract (b ∷ bs) = Contract IsHeap live b × AllContract bs

  -- The backends' memory is well formed, `num_caches` counts the table, each cache of the table is
  -- held, and each backend of the list keeps its contract.
  pub record IsSound (p : Provider W T) (w : W) : Type 0 where
    pub heap : IsHeap w
    pub counted : p.num_caches ≡ length (hash.items p.caches) % 2 ^ 64
    pub held : AllHeld IsHeap live w (hash.items p.caches)
    pub typed : p.num_backend_types ≡ length p.backend_types
    pub backends : AllContract p.backend_types

  -- Soundness outlives a change of memory that gives no context back.
  pub IsSound-mono :
      (p : Provider W T) (w w' : W)
      → IsSound p w
      → IsHeap w'
      → ((q : Ptr) → live w q ≡ true → live w' q ≡ true)
      → IsSound p w'
  IsSound-mono p w w' s i keep = record {
    heap = i;
    counted = s.counted;
    held = AllHeld-mono IsHeap live w w' (hash.items p.caches) keep s.held;
    typed = s.typed;
    backends = s.backends;
  }

  pub find_cache-lookup :
      (p : Provider W T) (id : CacheId) → find_cache hash p id ≡ lookup id (hash.items p.caches)
  unfolding find_cache
  find_cache-lookup p id = hash.find-items id p.caches

  pub find_cache-Held :
      (p : Provider W T) (w : W) (id : CacheId) (r : Cache W)
      → IsSound p w
      → find_cache hash p id ≡ some r
      → Held IsHeap live w id r
  find_cache-Held p w id r s e =
      lookup-Held IsHeap live w id r (hash.items p.caches) s.held (sym (find_cache-lookup p id) ∙ e)

  -- Adding a cache whose context no other cache has.
  pub add_cache-IsSound :
      (p : Provider W T) (w : W) (r : Cache W)
      → IsSound p w
      → Held IsHeap live w r.id r
      → Unshared IsHeap live r.ctx (hash.items p.caches)
      → IsSound (add_cache hash p r).1 w
  unfolding add_cache find_cache
  add_cache-IsSound p w r s h u = elim (Option-cases (find_cache hash p r.id)) [
    | inr (old, e) ↦ rw (e, add_cache) s
    | inl e ↦
        let xs = hash.items p.caches in
        let new = hash.items-add r.id r p.caches e in
        rw (e, add_cache)
          (record {
            heap = s.heap;
            counted = rw new (omega (arith, s.counted, length-append xs ((r.id, r) ∷ [])));
            held = rw new (
                AllHeld-append IsHeap live w r.id r xs s.held
                  (sym (hash.find-items r.id p.caches) ∙ e) h u);
            typed = s.typed;
            backends = s.backends;
          })
  ]

  -- Dropping a cache whose context has been given back.
  pub drop_cache-IsSound :
      (p : Provider W T) (w w' : W) (id : CacheId) (r : Cache W)
      → IsSound p w
      → find_cache hash p id ≡ some r
      → IsHeap w'
      → KeepsOthers IsHeap live w r.ctx w'
      → IsSound (drop_cache hash p id) w'
  unfolding drop_cache
  drop_cache-IsSound p w w' id r s e i keep =
      let xs = hash.items p.caches in
      let found : lookup id xs ≡ some r = sym (find_cache-lookup p id) ∙ e in
      let less = hash.items-del id p.caches in
      record {
        heap = i;
        counted = rw less (omega (arith, s.counted, length-erase id r xs found));
        held = rw less (AllHeld-erase IsHeap live w w' id r xs s.held found keep);
        typed = s.typed;
        backends = s.backends;
      }

  pub Released-KeepsOthers :
      (w : W) (c : Ptr) (w' : W) → Released IsHeap live w c w' → KeepsOthers IsHeap live w c w'
  Released-KeepsOthers w c w' r q n = ground (arith, r q)

  -- `find_backend_impl` finds only backends that keep the contract.
  at :
      (i : ℕ) (bs : List (BackendImpl W))
      → AllContract bs
      → (b : BackendImpl W) → get_elem? bs i ≡ some b
      → Contract IsHeap live b
  at i [] h b e = cc
  at zero (x ∷ bs) h b e = subst (Contract IsHeap live) (some-injective x b e) h.0
  at (suc i) (x ∷ bs) h b e = at i bs h.1 b e

  find_loop-Contract :
      (k i : ℕ) (name : Option String) (bs : List (BackendImpl W))
      → AllContract bs
      → Yields
          (λ o. (b : BackendImpl W) → o ≡ some b → Contract IsHeap live b)
          (find_loop k i name bs)
  unfolding find_loop strcmp_eq
  find_loop-Contract zero i name bs h = λ b e. cc
  find_loop-Contract (suc k) i name bs h = elim (Option-cases (get_elem? bs i)) [
    | inl e ↦ rw e tt
    | inr (impl, e) ↦ elim (Run-cases (strcmp_eq name impl.name)) [
      | inr (f, r) ↦ rw (e, r) tt
      | inl (b, r) ↦
          rw (e, r)
            (elim (Bool-cases b) [
              | inl t ↦ rw t (λ b' e'.
                  subst (Contract IsHeap live) (some-injective impl b' e') (at i bs h impl e))
              | inr t ↦ rw t (find_loop-Contract k (suc i) name bs h)
            ])
    ]
  ]

  pub find_backend_impl-Contract :
      (p : Provider W T) (w : W) (name : Option String)
      → IsSound p w
      → Yields
          (λ o. (b : BackendImpl W) → o ≡ some b → Contract IsHeap live b)
          (find_backend_impl p name)
  unfolding find_backend_impl
  find_backend_impl-Contract p w name s =
      find_loop-Contract p.num_backend_types 0 name p.backend_types s.backends
