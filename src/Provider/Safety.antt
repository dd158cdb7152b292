-- ===== src/Provider/Safety.antt =====
-- The RPC handlers of src/provider.c and the provider's invariant.
use cachercise.Base.{
  ◌≡◌, refl, Bool, true, false, Option, none, some, [], ◌∷◌, arith, ◌==◌, ◌||◌, Bool-cases, inl,
  inr, ◌∙◌,
}
use cachercise.Base.Run.{Run, Returns, Yields, Yields-bind, Yields-true, Returns-mono}
use cachercise.Common.{ReturnCode, CacheId, Ptr, to_int32}
use cachercise.Backend.{BackendImpl, Contract, Created, fresh, refused}
use cachercise.Table.{UtHash}
use cachercise.Messages.{CreateCacheIn, CreateCacheOut, HelloIn, SumIn, SumOut, IoIn, IoOut}
use cachercise.Provider.Holdings.{Unshared-fresh}
use cachercise.Provider.Sound.{
  IsSound, IsSound-mono, find_cache-Held, add_cache-IsSound, find_backend_impl-Contract,
}
use cachercise.Provider.Handlers.{
  install, set_up, create_with, open_with, create_cache, open_cache, hello_found, hello, sum_found,
  sum, io_found, io,
}
use cachercise.Provider.{Cache, Provider, check_token, find_backend_impl, find_cache}

module _ {W T : Type 0} (hash : UtHash T (Cache W)) (IsHeap : W → Type 0)
    (live : W → Ptr → Bool) where
  -- A handler that leaves a sound provider.
  abbrev pub Keeps : {Out : Type 0} → Run (Out × Provider W T × W) → Type 0
  Keeps = Yields (λ (out, p, w). IsSound hash IsHeap live p w)

  -- One that leaves the provider alone, and a memory in which it is sound.
  abbrev pub KeepsMemory : {Out : Type 0} → Provider W T → Run (Out × W) → Type 0
  KeepsMemory p = Yields (λ (out, w). IsSound hash IsHeap live p w)

  install-Keeps :
      (memory : Bool) (uuid : CacheId) (b : BackendImpl W) (c : Ptr) (p : Provider W T) (w w' : W)
      → Contract IsHeap live b
      → IsSound hash IsHeap live p w
      → IsHeap w'
      → live w c ≡ false
      → ((q : Ptr) → live w' q ≡ ((q == c) || live w q))
      → Keeps (install hash memory uuid b c p w')
  unfolding install
  install-Keeps false uuid b c p w w' k s i f l = tt
  install-Keeps true uuid b c p w w' k s i f l =
      let s' = IsSound-mono hash IsHeap live p w w' s i (λ q e. ground (arith, l q)) in
      let r : Cache W = record { fn = b; ctx = c; id = uuid } in
      add_cache-IsSound hash IsHeap live p w' r s'
        (record { keyed = refl; contract = k; in_use = ground (arith, l c) })
        (Unshared-fresh IsHeap live w c (hash.items p.caches) f s.held)

  module _ (memory : Bool) (uuid : CacheId) (out : CreateCacheOut) (p : Provider W T) (w : W)
      (s : IsSound hash IsHeap live p w) where
    set_up-Keeps :
        (b : BackendImpl W) (r : ReturnCode) (c : Ptr) (w' : W)
        → Contract IsHeap live b
        → IsHeap w'
        → Created IsHeap live w c w' r
        → Keeps (set_up hash memory uuid out p w b (r, c, w'))
    unfolding set_up
    set_up-Keeps b r c w' k i (fresh f l) = install-Keeps memory uuid b c p w w' k s i f l
    set_up-Keeps b r c w' k i (refused n l) =
        rw n (IsSound-mono hash IsHeap live p w w' s i (λ q e. l q ∙ e))

    create_with-Keeps :
        (input : CreateCacheIn) (o : Option (BackendImpl W))
        → ((b : BackendImpl W) → o ≡ some b → Contract IsHeap live b)
        → Keeps (create_with hash memory uuid out p w input o)
    unfolding create_with
    create_with-Keeps input none k = s
    create_with-Keeps input (some b) k =
        Yields-bind _ _ (b.create_cache input.config w) _ ((k b refl).creates input.config w s.heap)
          λ (r, c, w') (i, made). set_up-Keeps b r c w' (k b refl) i made

    open_with-Keeps :
        (input : CreateCacheIn) (o : Option (BackendImpl W))
        → ((b : BackendImpl W) → o ≡ some b → Contract IsHeap live b)
        → Keeps (open_with hash memory uuid out p w input o)
    unfolding open_with
    open_with-Keeps input none k = s
    open_with-Keeps input (some b) k =
        Yields-bind _ _ (b.open_cache input.config w) _ ((k b refl).opens input.config w s.heap)
          λ (r, c, w') (i, made). set_up-Keeps b r c w' (k b refl) i made

    -- Whatever an admin sends to a sound provider, with an input that cannot be decoded, any token, any
    -- type and any configuration, a `create_cache` handler that ends leaves the provider sound.
    pub create_cache-Keeps :
        (input : Option CreateCacheIn) → Keeps (create_cache hash memory uuid out p w input)
    unfolding create_cache
    create_cache-Keeps none = s
    create_cache-Keeps (some input) =
        Yields-bind _ _ (check_token p input.token) _ (Yields-true (check_token p input.token))
          λ valid _. elim (Bool-cases valid) [
            | inr t ↦ rw t s
            | inl t ↦ rw t (
                Yields-bind _ _ (find_backend_impl p input.type) _
                  (find_backend_impl-Contract hash IsHeap live p w input.type s)
                  (create_with-Keeps input))
          ]

    -- Whatever an admin sends to a sound provider, an `open_cache` handler that ends leaves the provider
    -- sound.
    pub open_cache-Keeps :
        (input : Option CreateCacheIn) → Keeps (open_cache hash memory uuid out p w input)
    unfolding open_cache
    open_cache-Keeps none = s
    open_cache-Keeps (some input) =
        Yields-bind _ _ (check_token p input.token) _ (Yields-true (check_token p input.token))
          λ valid _. elim (Bool-cases valid) [
            | inr t ↦ rw t s
            | inl t ↦ rw t (
                Yields-bind _ _ (find_backend_impl p input.type) _
                  (find_backend_impl-Contract hash IsHeap live p w input.type s)
                  (open_with-Keeps input))
          ]

  module _ (p : Provider W T) (w : W) (s : IsSound hash IsHeap live p w) where
    found_io-KeepsMemory :
        (out : IoOut) (input : IoIn) (o : Option (Cache W))
        → find_cache hash p input.cache_id ≡ o
        → KeepsMemory p (io_found hash p w out input o)
    unfolding io_found
    found_io-KeepsMemory out input none e = s
    found_io-KeepsMemory out input (some r) e =
        let h = find_cache-Held hash IsHeap live p w input.cache_id r s e in
        Yields-bind _ _
          (r.fn.io r.ctx input.count input.offset (input.scratch ∷ []) (to_int32 input.kind) w) _
          (h.contract.transfers r.ctx input.count input.offset (input.scratch ∷ [])
            (to_int32 input.kind) w s.heap h.in_use)
          λ (n, b, w') (i, l). IsSound-mono hash IsHeap live p w w' s i (λ q a. l q ∙ a)

    -- Whatever a client sends to a sound provider, an `io` handler that ends leaves a memory of the
    -- backends in which the provider is sound.
    pub io-KeepsMemory : (out : IoOut) (input : Option IoIn) → KeepsMemory p (io hash p w out input)
    unfolding io
    io-KeepsMemory out none = s
    io-KeepsMemory out (some input) =
        found_io-KeepsMemory out input (find_cache hash p input.cache_id) refl

    found_sum-KeepsMemory :
        (out : SumOut) (input : SumIn) (o : Option (Cache W))
        → find_cache hash p input.cache_id ≡ o
        → KeepsMemory p (sum_found hash p w out input o)
    unfolding sum_found
    found_sum-KeepsMemory out input none e = s
    found_sum-KeepsMemory out input (some r) e =
        let h = find_cache-Held hash IsHeap live p w input.cache_id r s e in
        Yields-bind _ _ (r.fn.sum r.ctx input.x input.y w) _
          (h.contract.sums r.ctx input.x input.y w s.heap h.in_use)
          λ (n, w') (i, l). IsSound-mono hash IsHeap live p w w' s i (λ q a. l q ∙ a)

    -- Whatever a client sends to a sound provider, a `sum` handler that ends leaves a memory of the
    -- backends in which the provider is sound.
    pub sum-KeepsMemory :
        (out : SumOut) (input : Option SumIn) → KeepsMemory p (sum hash p w out input)
    unfolding sum
    sum-KeepsMemory out none = s
    sum-KeepsMemory out (some input) =
        found_sum-KeepsMemory out input (find_cache hash p input.cache_id) refl

    found_hello-IsSound :
        (id : CacheId) (o : Option (Cache W))
        → find_cache hash p id ≡ o
        → Returns (IsSound hash IsHeap live p) (hello_found hash p w o)
    unfolding hello_found
    found_hello-IsSound id none e = s
    found_hello-IsSound id (some r) e =
        let h = find_cache-Held hash IsHeap live p w id r s e in
        Returns-mono _ _ (r.fn.hello r.ctx w) (h.contract.greets r.ctx w s.heap h.in_use)
          λ w' (i, l). IsSound-mono hash IsHeap live p w w' s i (λ q a. l q ∙ a)

    -- On a sound provider a `hello` handler always ends, and leaves a memory of the backends in which
    -- the provider is sound.
    pub hello-IsSound :
        (input : Option HelloIn) → Returns (IsSound hash IsHeap live p) (hello hash p w input)
    unfolding hello
    hello-IsSound none = s
    hello-IsSound (some input) =
        found_hello-IsSound input.cache_id (find_cache hash p input.cache_id) refl
