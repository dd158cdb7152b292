-- ===== src/Provider/Overrun.antt =====
-- `list_caches` of src/provider.c, where `num_caches` is less than the number of caches in the table.
use cachercise.Base.{
  ℕ, ◌+◌, ◌^◌, ◌<◌, ◌≤◌, ◌≡◌, refl, Bool, true, false, some, List, [], ◌∷◌, arith, ltb, length, set,
  replicate, length-set, length-replicate, Bool-cases, inl, inr,
}
use cachercise.Base.Run.{ok, fault, undefined}
use cachercise.Common.{CacheId, to_int32}
use cachercise.Table.{UtHash}
use cachercise.Messages.{ListCachesIn, ListCachesOut}
use cachercise.Provider.Handlers.{fill, fill_ids, list_caches}
use cachercise.Provider.{Cache, Provider, check_token}

module _ {W T : Type 0} (hash : UtHash T (Cache W)) where
  -- The walk of `list_caches` goes past the end of an array for fewer caches than there are.
  fill-overrun :
      (i : ℕ) (ids : List CacheId) (items : List (CacheId × Cache W))
      → i ≤ length ids
      → length ids < i + length items
      → length ids < 2 ^ 31
      → fill hash i ids items ≡ fault undefined
  unfolding fill
  fill-overrun i ids [] a l s = absurd (omega (arith, a, l))
  fill-overrun i ids ((k, r) ∷ rest) a l s = elim (Bool-cases (ltb i (length ids))) [
    | inr e ↦ rw e refl
    | inl e ↦
        let lt : i < length ids = ground arith in
        let no_wrap : to_int32 (i + 1) ≡ i + 1 = omega arith in
        let kept : length (set ids i r.id) ≡ length ids = length-set ids i r.id in
        rw (e, no_wrap)
          (fill-overrun (i + 1) (set ids i r.id) rest (omega (arith, kept)) (omega (arith, kept, l))
            (omega (arith, kept)))
  ]

  fill_ids-overrun :
      (memory : Bool) (n : ℕ) (items : List (CacheId × Cache W))
      → n < length items
      → n < 2 ^ 31
      → fill_ids hash memory n items ≡ fault undefined
  unfolding fill_ids
  fill_ids-overrun true n items l s =
      let zeros = length-replicate {A = CacheId} n 0 in
      let overrun =
        fill-overrun 0 (replicate n 0) items (omega arith) (omega (arith, zeros, l))
          (omega (arith, zeros)) in
      rw overrun refl
  fill_ids-overrun false n [] l s = absurd (omega (arith, l))
  fill_ids-overrun false n (x ∷ xs) l s = refl

  pub list_caches-overrun :
      (memory : Bool) (out : ListCachesOut) (p : Provider W T) (input : ListCachesIn)
      → check_token p input.token ≡ ok true
      → p.num_caches < length (hash.items p.caches)
      → p.num_caches < 2 ^ 31
      → list_caches hash memory out p (some input) ≡ fault undefined
  unfolding list_caches
  list_caches-overrun memory out p input c l s =
      rw (c, fill_ids-overrun memory p.num_caches (hash.items p.caches) l s) refl
