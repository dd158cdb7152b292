-- ===== src/Provider/Listing.antt =====
-- `list_caches` and `remove_all_caches`: the loops over the provider's table.
use cachercise.Base.{
  ℕ, suc, ◌+◌, ◌^◌, ◌<◌, ◌≡◌, refl, Bool, true, false, not, ◌&&◌, ◌||◌, some, List, [], ◌∷◌, ◌++◌,
  arith, ltb, ◌==◌, length, length-append, set, replicate, ap, ◌∙◌,
}
use mathlib.Core.List.{append_assoc}
use Prim.Native.Nat.{min}
use cachercise.Base.Run.{ok, Returns, Returns-bind, Returns-mono}
use cachercise.Common.{success, CacheId, Ptr, to_int32}
use cachercise.Table.{UtHash, erase}
use cachercise.Messages.{ListCachesIn, ListCachesOut}
use cachercise.Provider.Holdings.{AllHeld, AllHeld-others}
use cachercise.Provider.Sound.{IsSound, Released-KeepsOthers}
use cachercise.Provider.Handlers.{fill, fill_ids, list_caches}
use cachercise.Provider.{Cache, Provider, check_token, remove_loop, remove_all_caches}

module _ {W T : Type 0} (hash : UtHash T (Cache W)) where
  abbrev pub ids : List (CacheId × Cache W) → List CacheId
  ids [] = []
  ids ((k, r) ∷ xs) = r.id ∷ ids xs

  pub length-ids : (xs : List (CacheId × Cache W)) → length (ids xs) ≡ length xs
  length-ids [] = refl
  length-ids (x ∷ xs) = ap suc (length-ids xs)

  set-append :
      (done : List CacheId) (a : CacheId) (rest : List CacheId) (v : CacheId)
      → set (done ++ a ∷ rest) (length done) v ≡ (done ++ v ∷ []) ++ rest
  set-append [] a rest v = refl
  set-append (x ∷ done) a rest v = ap (◌∷◌ x) (set-append done a rest v)

  -- The loop fills the array in the order of the table.
  fill-ids :
      (done : List CacheId) (xs : List (CacheId × Cache W))
      → length done + length xs < 2 ^ 32
      → fill hash (length done) (done ++ replicate (length xs) 0) xs ≡ ok (done ++ ids xs)
  unfolding fill
  fill-ids done [] b = refl
  fill-ids done ((k, r) ∷ xs) b =
      let zeros : List CacheId = replicate (length xs) 0 in
      let room : ltb (length done) (length (done ++ 0 ∷ zeros)) ≡ true =
        ground (arith, length-append done (0 ∷ zeros)) in
      let next : to_int32 (length done + 1) ≡ length (done ++ r.id ∷ []) =
        omega (arith, length-append done (r.id ∷ [])) in
      rw (room, next, set-append done 0 zeros r.id)
        (fill-ids (done ++ r.id ∷ []) xs (omega (arith, length-append done (r.id ∷ [])))
          ∙ ap ok (append_assoc done (r.id ∷ []) (ids xs)))

  -- With the right token, `list_caches` answers with the smaller of the number of caches and
  -- `max_ids`, and with the array of all the ids in the order of the table: so the ids that are
  -- sent, the first `count` of the array, are the oldest caches.
  pub list_caches-ids :
      {IsHeap : W → Type 0} {live : W → Ptr → Bool} (out : ListCachesOut) (p : Provider W T) (w : W)
      (input : ListCachesIn)
      → IsSound hash IsHeap live p w
      → length (hash.items p.caches) < 2 ^ 32
      → check_token p input.token ≡ ok true
      → list_caches hash true out p (some input)
        ≡ ok (record {
          ret = success;
          count = min (length (hash.items p.caches)) input.max_ids;
          ids = some (ids (hash.items p.caches));
        })
  unfolding list_caches fill_ids
  list_caches-ids out p w input s b v =
      let n : p.num_caches ≡ length (hash.items p.caches) = omega (arith, s.counted) in
      rw (v, n, fill-ids [] (hash.items p.caches) (omega arith))
        (ap
          (λ (c : ℕ).
            ok (record { ret = success; count = c; ids = some (ids (hash.items p.caches)) }))
          (ground arith))

  -- A cache of the list has its context at `q`.
  abbrev pub uses : Ptr → List (CacheId × Cache W) → Bool
  uses q [] = false
  uses q ((k, r) ∷ xs) = (q == r.ctx) || uses q xs

module _ {W T : Type 0} (hash : UtHash T (Cache W)) (IsHeap : W → Type 0)
    (live : W → Ptr → Bool) where
  -- Every cache of `xs` has been closed, and nothing else.
  pub record Emptied (xs : List (CacheId × Cache W)) (w : W) (t : T) (w' : W) : Type 0 where
    pub items : hash.items t ≡ []
    pub heap : IsHeap w'
    pub contexts : (q : Ptr) → live w' q ≡ (not (uses hash q xs) && live w q)

  erase_first :
      (k : CacheId) (r : Cache W) (xs : List (CacheId × Cache W)) (t : T)
      → hash.items t ≡ (k, r) ∷ xs
      → hash.items (hash.del k t) ≡ xs
  unfolding erase
  erase_first k r xs t e = hash.items-del k t ∙ ap (erase k) e ∙ ground arith

  remove_loop-Emptied :
      (xs : List (CacheId × Cache W)) (t : T) (w : W)
      → hash.items t ≡ xs
      → IsHeap w
      → AllHeld IsHeap live w xs
      → Returns (λ (t', w'). Emptied xs w t' w') (remove_loop hash xs t w)
  unfolding remove_loop
  remove_loop-Emptied [] t w e i h = record { items = e; heap = i; contexts = λ q. refl }
  remove_loop-Emptied ((k, r) ∷ xs) t w e i (h, a, u, rest) =
      Returns-bind _ _ (r.fn.close_cache r.ctx w) _ (h.contract.closes r.ctx w i h.in_use)
        λ (ret, w₁) (i₁, l).
          Returns-mono _ _ (remove_loop hash xs (hash.del k t) w₁)
            (remove_loop-Emptied xs (hash.del k t) w₁ (erase_first k r xs t e) i₁ (
              AllHeld-others IsHeap live w w₁ r.ctx xs u
                (Released-KeepsOthers hash IsHeap live w r.ctx w₁ l) rest))
            λ (t', w') d. record {
              items = d.items;
              heap = d.heap;
              contexts = λ q. ground (arith, d.contexts q, l q);
            }

  -- Closing all the caches of a sound provider ends: the table is empty, exactly the contexts of
  -- its caches have been given back, and the provider is sound.
  pub remove_all_caches-Emptied :
      (p : Provider W T) (w : W)
      → IsSound hash IsHeap live p w
      → Returns
          (λ (p', w').
            IsSound hash IsHeap live p' w' × Emptied (hash.items p.caches) w p'.caches w')
          (remove_all_caches hash p w)
  unfolding remove_all_caches
  remove_all_caches-Emptied p w s =
      Returns-bind _ _ (remove_loop hash (hash.items p.caches) p.caches w) _
        (remove_loop-Emptied (hash.items p.caches) p.caches w refl s.heap s.held)
        λ (t, w') d. (
          record {
            heap = d.heap;
            counted = rw d.items;
            held = rw d.items tt;
            typed = s.typed;
            backends = s.backends;
          },
          d,
        )
