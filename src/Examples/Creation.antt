-- ===== src/Examples/Creation.antt =====
-- main of examples/admin.c on a server with the dummy backend.
use Prim.Native.Nat.{min}
use cachercise.Base.{
  ℕ, zero, suc, ◌+◌, ◌≤◌, ◌≡◌, refl, sym, ap, ◌∙◌, true, false, none, some, List, [], ◌∷◌, ◌==◌,
  arith, length, length-append, ◌++◌, take,
}
use cachercise.Base.Run.{Run, ok}
use cachercise.Common.{ReturnCode, success, CacheId, null}
use cachercise.Table.{UtHash}
use cachercise.Messages.{CreateCacheOut, ListCachesOut}
use cachercise.Messages.Wire.{Mercury}
use cachercise.Dummy.Memory.{Env, Heap}
use cachercise.Provider.{Cache, Provider}
use cachercise.Provider.Listing.{ids, length-ids}
use cachercise.Admin.{admin_init}
use cachercise.EndToEnd.Listed.{overlay, served_list, served_list-ids}
use cachercise.EndToEnd.Created.{
  Serves, new_cache, larger, after, no_token, served_create-creates, larger-IsSound, larger-Added,
  larger-items,
}
use cachercise.Examples.{Machine, print_ids, admin_main}
use cachercise.Examples.Greeting.{Works}

print_ids-suc :
    (k i : ℕ) (x : CacheId) (xs : List CacheId) → print_ids k (suc i) (x ∷ xs) ≡ print_ids k i xs
unfolding print_ids
print_ids-suc zero i x xs = refl
print_ids-suc (suc k) i x xs = rw (print_ids-suc k (suc i) x xs) refl

print_ids-overlay :
    (dest src : List CacheId)
    → length src ≤ length dest
    → print_ids (length src) 0 (overlay dest src) ≡ ok src
unfolding print_ids overlay
print_ids-overlay dest [] l = refl
print_ids-overlay [] (s ∷ src) l = absurd (omega arith)
print_ids-overlay (d ∷ dest) (s ∷ src) l =
    let rest =
      print_ids-suc (length src) 0 s (overlay dest src)
      ∙ print_ids-overlay dest src (omega arith) in
    rw rest refl

ids-append :
    {T : Type 0} (hash : UtHash T (Cache Heap)) (xs : List (CacheId × Cache Heap)) (k : CacheId)
    (r : Cache Heap)
    → ids hash (xs ++ (k, r) ∷ []) ≡ ids hash xs ++ r.id ∷ []
ids-append hash [] k r = refl
ids-append hash ((j, q) ∷ xs) k r = ap (λ is. q.id ∷ is) (ids-append hash xs k r)

take-min : (n : ℕ) (xs : List CacheId) → take (min (length xs) n) xs ≡ take n xs
take-min zero [] = let none_left : min 0 0 ≡ 0 = omega arith in ap (λ k. take k []) none_left
take-min (suc n) [] =
    let none_left : min 0 (suc n) ≡ 0 = omega arith in ap (λ k. take k []) none_left
take-min zero (x ∷ xs) =
    let none_left : min (length (x ∷ xs)) 0 ≡ 0 = omega arith in ap (λ k. take k (x ∷ xs)) none_left
take-min (suc n) (x ∷ xs) =
    let one_more : min (length (x ∷ xs)) (suc n) ≡ suc (min (length xs) n) = omega arith in
    ap (λ k. take k (x ∷ xs)) one_more ∙ ap (λ ys. x ∷ ys) (take-min n xs)

length-take : (n : ℕ) (xs : List CacheId) → length (take n xs) ≡ min (length xs) n
length-take zero xs = omega arith
length-take (suc n) [] = omega arith
length-take (suc n) (x ∷ xs) = omega (arith, length-take n xs)

-- What an administrator with an array gets of a list of `n` ids.
abbrev first_four : (array : List CacheId) → ℕ → List CacheId → Run (ReturnCode × ℕ × List CacheId)
first_four array n xs = ok (success, min n 4, overlay array (take (min n 4) xs))

first_four-take :
    (array xs : List CacheId)
    → first_four array (length xs) xs ≡ ok (success, length (take 4 xs), overlay array (take 4 xs))
first_four-take array xs = rw (take-min 4 xs, length-take 4 xs) refl

module _ {T : Type 0} (hash : UtHash T (Cache Heap)) (env : Env) where
  module _ (uuid : CacheId) (p : Provider Heap T) (w : Heap) (s : Serves hash env uuid p w) where
    abbrev grown : Provider Heap T
    grown = larger hash env uuid p w s

    larger-ids : ids hash (hash.items grown.caches) ≡ ids hash (hash.items p.caches) ++ uuid ∷ []
    larger-ids =
        ap (ids hash) (larger-items hash env uuid p w s)
        ∙ ids-append hash (hash.items p.caches) uuid (new_cache hash env uuid w)

    larger-length : length (hash.items grown.caches) ≡ length (hash.items p.caches) + 1
    larger-length =
        ap length (larger-items hash env uuid p w s)
        ∙ length-append (hash.items p.caches) ((uuid, new_cache hash env uuid w) ∷ [])

    -- The ids that the server sends, and the admin logs.
    abbrev pub listing : List CacheId
    listing = take 4 (ids hash (hash.items p.caches) ++ uuid ∷ [])

    listed_ids :
        (wire : Mercury) (out : ListCachesOut) (array : List CacheId)
        → length array ≡ 4
        → served_list hash wire true true out grown none array 4
          ≡ ok (success, length listing, overlay array listing)
    listed_ids wire out array l =
        let n = length-ids hash (hash.items grown.caches) in
        served_list-ids hash wire grown (after hash env uuid p w s)
          (larger-IsSound hash env uuid p w s) out none array 4
          (omega (arith, larger-length, s.few))
          (no_token hash env uuid p w s grown
            ((larger-Added hash env uuid p w s).same_token ∙ s.open_to_all))
          (omega arith)
        ∙ ap (λ k. first_four array k (ids hash (hash.items grown.caches))) (sym n)
        ∙ ap (λ xs. first_four array (length xs) xs) larger-ids
        ∙ first_four-take array (ids hash (hash.items p.caches) ++ uuid ∷ [])

    -- On such a server, and where its machine works, admin.c creates a cache of the dummy backend, and
    -- logs the ids of the four oldest caches, the new one counted in.
    pub admin_main-creates :
        (wire : Mercury) (m : Machine) (array : List CacheId) (out : CreateCacheOut)
        (listed_out : ListCachesOut)
        → Works m
        → length array ≡ 4
        → admin_main hash wire m 3 array uuid out listed_out p w
          ≡ ok (some (uuid, listing, larger hash env uuid p w s, after hash env uuid p w s))
    unfolding admin_main admin_init
    admin_main-creates wire m array out listed_out k l =
        let there : (m.memory == null) ≡ false = ground (arith, k.memory) in
        let logged =
          print_ids-overlay array listing
            (omega (arith, l, length-take 4 (ids hash (hash.items p.caches) ++ uuid ∷ []))) in
        rw
          (
            there,
            k.lookup,
            served_create-creates hash env uuid p w s out,
            listed_ids wire listed_out array l,
            logged,
            k.addr_free,
          )
          refl
