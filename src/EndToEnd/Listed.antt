-- ===== src/EndToEnd/Listed.antt =====
-- cachercise_list_caches of src/admin.c against the handler of src/provider.c, by way of the encoding
-- of src/types.h.
use Prim.Native.Nat.{min}
use cachercise.Base.{
  ℕ, suc, zero, ◌<◌, ◌≤◌, ◌≡◌, refl, sym, ap, ◌∙◌, ◌^◌, String, Bool, true, false, Option, some,
  List, [], ◌∷◌, arith, length, take,
}
use cachercise.Base.Run.{Run, ok, fault, undefined, ◌>>=◌}
use cachercise.Common.{ReturnCode, success, CacheId, Ptr}
use cachercise.Table.{UtHash}
use cachercise.Messages.{ListCachesIn, ListCachesOut}
use cachercise.Messages.Wire.{Mercury, received, received-ids, received-null}
use cachercise.Provider.{Cache, Provider, check_token}
use cachercise.Provider.Sound.{IsSound}
use cachercise.Provider.Listing.{ids, length-ids, list_caches-ids}
use cachercise.Provider.Handlers
use cachercise.Client.Bytes.{memcpy}
use cachercise.Admin.{list_answer}

-- The array `dest` with `src` over its front.
unfoldable pub overlay : (dest src : List ℕ) → List ℕ
overlay dest [] = dest
overlay [] (s ∷ src) = []
overlay (d ∷ dest) (s ∷ src) = s ∷ overlay dest src

memcpy-overlay :
    (dest src : List ℕ)
    → length src ≤ length dest
    → memcpy dest src (length src) ≡ ok (overlay dest src)
unfolding memcpy overlay
memcpy-overlay dest [] b = refl
memcpy-overlay [] (s ∷ src) b = absurd (omega arith)
memcpy-overlay (d ∷ dest) (s ∷ src) b = rw (memcpy-overlay dest src (omega arith)) refl

memcpy-null : (dest : List ℕ) (n : ℕ) → 0 < n → memcpy dest [] n ≡ fault undefined
unfolding memcpy
memcpy-null dest zero l = absurd (omega arith)
memcpy-null [] (suc n) l = refl
memcpy-null (d ∷ dest) (suc n) l = refl

length-take : (n : ℕ) (xs : List ℕ) → n ≤ length xs → length (take n xs) ≡ n
length-take zero xs b = refl
length-take (suc n) [] b = absurd (omega arith)
length-take (suc n) (x ∷ xs) b = ap suc (length-take n xs (omega arith))

module _ {W T : Type 0} (hash : UtHash T (Cache W)) (wire : Mercury) where
  -- cachercise_list_caches over a transport that delivers: the handler answers, `out` being on its
  -- stack, and the answer is sent. `memory` and `allocates` are what the `calloc` of the handler and that
  -- of the decoding give.
  unfoldable pub served_list :
      (memory allocates : Bool) (out : ListCachesOut)
      → Provider W T
      → (token : Option String) → (array : List CacheId) (count : ℕ)
      → Run (ReturnCode × ℕ × List CacheId)
  served_list memory allocates out p token array count = do
    answer ←
        Handlers.list_caches hash memory out p (some (record { token = token; max_ids = count }))
    list_answer array count (received wire allocates answer)

  module _ {IsHeap : W → Type 0} {live : W → Ptr → Bool} (p : Provider W T) (w : W)
      (s : IsSound hash IsHeap live p w) where
    -- An admin with the right token, and with an array of at least `count` elements, gets from a sound
    -- provider of fewer than 2 ^ 32 caches, where memory for the ids can be had on both sides, a success,
    -- the smaller of `count` and the number of caches, and at the front of the array so many ids,
    -- those of the oldest caches.
    pub served_list-ids :
        (out : ListCachesOut) (token : Option String) (array : List CacheId) (count : ℕ)
        → length (hash.items p.caches) < 2 ^ 32
        → check_token p token ≡ ok true
        → count ≤ length array
        → served_list true true out p token array count
          ≡ ok (
            success,
            min (length (hash.items p.caches)) count,
            overlay array
                (take (min (length (hash.items p.caches)) count) (ids hash (hash.items p.caches))),
          )
    unfolding served_list list_answer
    served_list-ids out token array count b v l =
        let n = length-ids hash (hash.items p.caches) in
        let m = min (length (hash.items p.caches)) count in
        let answer : ListCachesOut = record {
          ret = success;
          count = m;
          ids = some (ids hash (hash.items p.caches));
        } in
        let input : ListCachesIn = record { token = token; max_ids = count } in
        let sent =
          received-ids wire answer (ids hash (hash.items p.caches)) refl (omega (arith, n))
            (omega arith) in
        let first : List CacheId = take m (ids hash (hash.items p.caches)) in
        let taken = length-take m (ids hash (hash.items p.caches)) (omega (arith, n)) in
        let copied : memcpy array first m ≡ ok (overlay array first) =
          ap (memcpy array first) (sym taken) ∙ memcpy-overlay array first (omega arith) in
        rw (list_caches-ids hash out p w input s b v, sent, copied) refl

    -- Where the admin's side has no memory for the ids that it decodes, the call of an admin with the
    -- right token, to a sound provider of fewer than 2 ^ 32 caches, one or more, and with an array of
    -- one element or more, is undefined: no error comes of the allocation, and the ids are then copied
    -- from NULL.
    pub served_list-null :
        (out : ListCachesOut) (token : Option String) (array : List CacheId) (count : ℕ)
        → length (hash.items p.caches) < 2 ^ 32
        → check_token p token ≡ ok true
        → 0 < length (hash.items p.caches)
        → 0 < count
        → served_list true false out p token array count ≡ fault undefined
    unfolding served_list list_answer
    served_list-null out token array count b v some_cache some_room =
        let n = length-ids hash (hash.items p.caches) in
        let m = min (length (hash.items p.caches)) count in
        let answer : ListCachesOut = record {
          ret = success;
          count = m;
          ids = some (ids hash (hash.items p.caches));
        } in
        let input : ListCachesIn = record { token = token; max_ids = count } in
        let sent =
          received-null wire answer (ids hash (hash.items p.caches)) refl (omega (arith, n))
            (omega arith) in
        rw (list_caches-ids hash out p w input s b v, sent, memcpy-null array m (omega arith)) refl
