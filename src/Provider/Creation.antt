-- ===== src/Provider/Creation.antt =====
-- How the handlers `create_cache` and `open_cache` of src/provider.c end, and the cache that they
-- leave in the provider.
use cachercise.Base.{
  ◌+◌, ◌%◌, ◌^◌, ◌≡◌, refl, sym, String, true, false, Option, none, some, List, [], ◌∷◌, ◌++◌,
  arith, ◌==◌, if◌then◌else◌, length, Option-cases, Bool-cases, inl, inr, ap, ◌∙◌,
}
use cachercise.Base.Run.{Run, Fault, ok, fault, Run-cases}
use cachercise.Common.{
  ReturnCode, success, err_invalid_token, err_invalid_backend, is_success, CacheId, Ptr,
}
use cachercise.Backend.{BackendImpl}
use cachercise.Table.{UtHash, lookup, lookup-append}
use cachercise.Messages.{CreateCacheIn, CreateCacheOut}
use cachercise.Provider.Backends.{first_named, find_backend_impl-first}
use cachercise.Provider.Outcomes.{Checkable, check_token-ok}
use cachercise.Provider.Handlers.{install, set_up, create_with, open_with, create_cache, open_cache}
use cachercise.Provider.{Cache, Provider, check_token, find_backend_impl, find_cache, add_cache}

module _ {W T : Type 0} (hash : UtHash T (Cache W)) where
  -- What adding a cache under an id that is free does.
  pub record Added (p : Provider W T) (r : Cache W) (p' : Provider W T) : Type 0 where
    pub present : find_cache hash p' r.id ≡ some r
    pub others : (j : CacheId) → (r.id == j) ≡ false → find_cache hash p' j ≡ find_cache hash p j
    pub counted : p'.num_caches ≡ (p.num_caches + 1) % 2 ^ 64
    pub same_token : p'.token ≡ p.token
    pub same_backends : p'.backend_types ≡ p.backend_types

  lookup-last :
      (k j : CacheId) (r : Cache W) (xs : List (CacheId × Cache W))
      → lookup j xs ≡ none
      → lookup j (xs ++ (k, r) ∷ []) ≡ (if k == j then some r else none)
  unfolding lookup
  lookup-last k j r xs e = lookup-append j xs ((k, r) ∷ []) ∙ rw e refl

  pub lookup-others :
      (k j : CacheId) (r : Cache W) (xs : List (CacheId × Cache W))
      → (k == j) ≡ false
      → lookup j (xs ++ (k, r) ∷ []) ≡ lookup j xs
  unfolding lookup
  lookup-others k j r xs n = elim (Option-cases (lookup j xs)) [
    | inl e ↦ lookup-last k j r xs e ∙ rw (n, e) refl
    | inr (s, e) ↦ lookup-append j xs ((k, r) ∷ []) ∙ rw e refl
  ]

  pub add_cache-Added :
      (p : Provider W T) (r : Cache W)
      → find_cache hash p r.id ≡ none
      → Added p r (add_cache hash p r).1
  unfolding add_cache find_cache
  add_cache-Added p r e =
      let xs = hash.items p.caches in
      let new = hash.items-add r.id r p.caches e in
      let absent = sym (hash.find-items r.id p.caches) ∙ e in
      rw (e, add_cache)
        (record {
          present =
              hash.find-items r.id (hash.add r.id r p.caches)
              ∙ ap (lookup r.id) new
              ∙ lookup-last r.id r.id r xs absent
              ∙ ground arith;
          others = λ j n.
              hash.find-items j (hash.add r.id r p.caches)
              ∙ ap (lookup j) new
              ∙ lookup-others r.id j r xs n
              ∙ sym (hash.find-items j p.caches);
          counted = refl;
          same_token = refl;
          same_backends = refl;
        })

  add_cache-taken :
      (p : Provider W T) (r old : Cache W)
      → find_cache hash p r.id ≡ some old
      → (add_cache hash p r).1 ≡ p
  unfolding add_cache
  add_cache-taken p r old e = rw (e, add_cache) refl

  module _ (uuid : CacheId) (out : CreateCacheOut) (p : Provider W T) (w : W) where
    -- What the handler does with the answer `r`, `c` of the backend: an error is passed on; a context
    -- goes into a new cache; and where the id is taken, the answer is a success all the same, and the
    -- context is kept nowhere.
    pub data Made (b : BackendImpl W) (r : ReturnCode) (c : Ptr) (w' : W)
        (x : Run (CreateCacheOut × Provider W T × W)) : Type 0 where
      refused : is_success r ≡ false → x ≡ ok (record out { ret = r }, p, w') → Made b r c w' x
      added :
          (p' : Provider W T)
          → is_success r ≡ true
          → find_cache hash p uuid ≡ none
          → x ≡ ok (record { ret = success; id = uuid }, p', w')
          → Added p (record { fn = b; ctx = c; id = uuid }) p'
          → Made b r c w' x
      lost :
          (old : Cache W)
          → is_success r ≡ true
          → find_cache hash p uuid ≡ some old
          → x ≡ ok (record { ret = success; id = uuid }, p, w')
          → Made b r c w' x

    -- How the handler ends, for a backend's operation `op`: the token is wrong, no backend has the
    -- name, the operation goes wrong, or it answers.
    pub data Outcome (op : BackendImpl W → Option String → W → Run (ReturnCode × Ptr × W))
        (name : String) (input : CreateCacheIn) (x : Run (CreateCacheOut × Provider W T × W))
        : Type 0 where
      denied :
          check_token p input.token ≡ ok false
          → x ≡ ok (record out { ret = err_invalid_token }, p, w)
          → Outcome op name input x
      unknown :
          check_token p input.token ≡ ok true
          → first_named name p.backend_types ≡ none
          → x ≡ ok (record out { ret = err_invalid_backend }, p, w)
          → Outcome op name input x
      broken :
          (b : BackendImpl W) (e : Fault)
          → check_token p input.token ≡ ok true
          → first_named name p.backend_types ≡ some b
          → op b input.config w ≡ fault e
          → x ≡ fault e
          → Outcome op name input x
      answered :
          (b : BackendImpl W) (r : ReturnCode) (c : Ptr) (w' : W)
          → check_token p input.token ≡ ok true
          → first_named name p.backend_types ≡ some b
          → op b input.config w ≡ ok (r, c, w')
          → Made b r c w' x
          → Outcome op name input x

    set_up-Made :
        (b : BackendImpl W) (r : ReturnCode) (c : Ptr) (w' : W)
        → Made b r c w' (set_up hash true uuid out p w b (r, c, w'))
    unfolding set_up install
    set_up-Made b r c w' = elim (Bool-cases (is_success r)) [
      | inr n ↦ refused n (rw n refl)
      | inl y ↦
          let new : Cache W = record { fn = b; ctx = c; id = uuid } in
          elim (Option-cases (find_cache hash p uuid)) [
            | inl e ↦ added (add_cache hash p new).1 y e (rw y refl) (add_cache-Added p new e)
            | inr (old, e) ↦ lost old y e (rw (y, add_cache-taken p new old e) refl)
          ]
    ]

    module _ (name : String) (input : CreateCacheIn)
        (typed : p.num_backend_types ≡ length p.backend_types) (checkable : Checkable p input.token)
        (named : input.type ≡ some name) where
      looked_up : find_backend_impl p input.type ≡ ok (first_named name p.backend_types)
      looked_up = ap (find_backend_impl p) named ∙ find_backend_impl-first p name typed

      -- The `create_cache` handler, on a provider that counts its backends, when the request has a
      -- type and a token that can be checked, and memory is there: a wrong token and a name that no
      -- backend has are refused, and change nothing; otherwise it is the first backend of that name
      -- that creates. What goes wrong there goes wrong here. An error from it is the answer. With a
      -- context from it, the cache is found under its new id, the other ids find what they did, and
      -- the count is one more; but if the id is taken, the answer is a success and nothing is added.
      pub create_cache-Outcome :
          Outcome
            (λ b. b.create_cache)
            name
            input
            (create_cache hash true uuid out p w (some input))
      unfolding create_cache create_with
      create_cache-Outcome =
          let (valid, v) = check_token-ok p input.token checkable in
          elim (Bool-cases valid) [
            | inr f ↦ let v' = v ∙ ap ok f in denied v' (rw v' refl)
            | inl t ↦
                let v' = v ∙ ap ok t in
                elim (Option-cases (first_named name p.backend_types)) [
                  | inl e ↦ let l = looked_up ∙ ap ok e in unknown v' e (rw (v', l) refl)
                  | inr (b, e) ↦
                      let l = looked_up ∙ ap ok e in
                      elim (Run-cases (b.create_cache input.config w)) [
                        | inr (f, r) ↦ broken b f v' e r (rw (v', l, r) refl)
                        | inl ((r, c, w'), run) ↦
                            answered b r c w' v' e run (rw (v', l, run) (set_up-Made b r c w'))
                      ]
                ]
          ]

      -- The `open_cache` handler, on a provider that counts its backends, when the request has a type
      -- and a token that can be checked, and memory is there, ends as the `create_cache` handler does,
      -- by way of the `open_cache` of the first backend of that name.
      pub open_cache-Outcome :
          Outcome (λ b. b.open_cache) name input (open_cache hash true uuid out p w (some input))
      unfolding open_cache open_with
      open_cache-Outcome =
          let (valid, v) = check_token-ok p input.token checkable in
          elim (Bool-cases valid) [
            | inr f ↦ let v' = v ∙ ap ok f in denied v' (rw v' refl)
            | inl t ↦
                let v' = v ∙ ap ok t in
                elim (Option-cases (first_named name p.backend_types)) [
                  | inl e ↦ let l = looked_up ∙ ap ok e in unknown v' e (rw (v', l) refl)
                  | inr (b, e) ↦
                      let l = looked_up ∙ ap ok e in
                      elim (Run-cases (b.open_cache input.config w)) [
                        | inr (f, r) ↦ broken b f v' e r (rw (v', l, r) refl)
                        | inl ((r, c, w'), run) ↦
                            answered b r c w' v' e run (rw (v', l, run) (set_up-Made b r c w'))
                      ]
                ]
          ]
