-- ===== src/Examples/Session.antt =====
-- The administrator and the client, one after the other, against one server.
use cachercise.Base.{
  Bool, ℕ, ◌≤◌, ◌≡◌, ◌≢◌, refl, ap, ◌∙◌, Option, none, some, List, [], ◌∷◌, arith, length, ◌++◌,
  take,
}
use cachercise.Base.Int.{pos}
use cachercise.Base.Run.{ok}
use cachercise.Common.{success, CacheId, Ptr, null}
use cachercise.Table.{UtHash}
use cachercise.Messages.{CreateCacheOut, ListCachesOut, SumOut}
use cachercise.Messages.Wire.{Mercury}
use cachercise.Dummy.Memory.{Env, Heap, emit, printed}
use cachercise.Dummy.Ownership.{live, IsHeap}
use cachercise.Dummy.{dummy_backend}
use cachercise.Provider.{Cache, Provider, find_cache}
use cachercise.Provider.Sound.{IsSound}
use cachercise.Provider.Backends.{first_named}
use cachercise.Provider.Listing.{ids}
use cachercise.Examples.{Machine, server_main, admin_main, client_main}
use cachercise.Margo.{Margo}
use cachercise.Table.{lookup}
use cachercise.Dummy.Fulfils.{dummy_backend-Contract}
use cachercise.Provider.Lifecycle.{args_init, new_provider}
use cachercise.Provider.Register.{
  CanRegister, registered, registered_margo, registered-IsSound, register-ok,
}
use cachercise.Examples.Greeting.{Works, client_main-sums}
use cachercise.EndToEnd.Created.{Serves, larger, after, larger-IsSound, larger-Added, new_cache}
use cachercise.Examples.Creation.{admin_main-creates}

-- On a sound server without a token that has the dummy backend, with room for one more cache and a
-- fresh id for it, and where both machines work, admin.c creates a cache, and logs the ids of the four
-- oldest caches, the new one counted in; the server is sound after it. client.c, started with the new
-- cache's id, then logs 68, the sum of 45 and 23, and leaves no handle to warn of; the server's
-- memory has changed only by the hello that is printed.
pub admin-client :
    {T : Type 0} (hash : UtHash T (Cache Heap)) (env : Env) (uuid : CacheId) (p : Provider Heap T)
    (w : Heap) (wire : Mercury) (m m' : Machine) (array : List CacheId) (provider_id : ℕ)
    (out : CreateCacheOut) (listed_out : ListCachesOut) (sum_out : SumOut)
    → Serves hash env uuid p w
    → Works m
    → Works m'
    → length array ≡ 4
    → (p' : Provider Heap T) × (w' : Heap) × (admin_main hash wire m 3 array uuid out listed_out p w
        ≡ ok (some (uuid, take 4 (ids hash (hash.items p.caches) ++ uuid ∷ []), p', w')))
      × IsSound hash IsHeap live p' w'
      × (client_main hash m' 4 36 provider_id uuid sum_out p' w'
          ≡ ok (some (pos 68, none, emit (printed "Hello World from Dummy cache\n") w')))
admin-client hash env uuid p w wire m m' array provider_id out listed_out sum_out s k k' l =
    let added = larger-Added hash env uuid p w s in
    (
      larger hash env uuid p w s,
      after hash env uuid p w s,
      admin_main-creates hash env uuid p w s wire m array out listed_out k l,
      larger-IsSound hash env uuid p w s,
      client_main-sums hash env m' provider_id uuid sum_out (larger hash env uuid p w s)
          (after hash env uuid p w s) (new_cache hash env uuid w) k' added.present refl,
    )

first_named-dummy :
    (env : Env) → first_named "dummy" (dummy_backend env ∷ []) ≡ some (dummy_backend env)
unfolding first_named dummy_backend
first_named-dummy env = refl

module _ {M T : Type 0} (margo : Margo M) (hash : UtHash T (Cache Heap)) (usable : ℕ → Option ℕ)
    (strdup : Bool) (env : Env) (self : Ptr) (m : M) where
  abbrev server : Provider Heap T
  server = registered margo hash usable strdup (dummy_backend env) self 42 (some args_init) m

  server-Serves :
      (uuid : CacheId) (w : Heap)
      → IsHeap w
      → env.parse_ex "{}" ≢ null
      → 2 ≤ w.room
      → Serves hash env uuid server w
  unfolding new_provider find_cache lookup
  server-Serves uuid w i parses room = record {
    sound =
        registered-IsSound margo hash usable strdup (dummy_backend env) self 42 (some args_init) m
          IsHeap live w (dummy_backend-Contract env) i;
    open_to_all = refl;
    dummy = first_named-dummy env;
    parses = parses;
    room = room;
    unused = hash.find-items uuid hash.empty ∙ ap (lookup uuid) hash.items-empty;
    few = rw hash.items-empty (omega arith);
  }

  -- The three examples together. A server on which the provider can be registered, with eight bytes
  -- that can be used in the block for the list of backends, registers it; an admin.c on a working
  -- machine, where the server has memory and json-c reads "{}", then creates a cache and logs its id
  -- alone; and a client.c that is started with this id, on a working machine, logs 68, the sum of 45
  -- and 23, and leaves no handle to warn of.
  pub server-admin-client :
      (n : ℕ) (uuid : CacheId) (w : Heap) (wire : Mercury) (a c : Machine) (array : List CacheId)
      (out : CreateCacheOut) (listed_out : ListCachesOut) (sum_out : SumOut)
      → CanRegister margo hash usable strdup (dummy_backend env) self 42 (some args_init) m
      → usable 1 ≡ some n
      → 8 ≤ n
      → IsHeap w
      → env.parse_ex "{}" ≢ null
      → 2 ≤ w.room
      → Works a
      → Works c
      → length array ≡ 4
      → (p : Provider Heap T) × (m' : M) × (p' : Provider Heap T) × (w' : Heap) × (server_main margo
            hash usable strdup env self m
          ≡ ok (success, some p, m'))
        × (admin_main hash wire a 3 array uuid out listed_out p w
            ≡ ok (some (uuid, uuid ∷ [], p', w')))
        × (client_main hash c 4 36 42 uuid sum_out p' w'
            ≡ ok (some (pos 68, none, emit (printed "Hello World from Dummy cache\n") w')))
  unfolding server_main new_provider
  server-admin-client n uuid w wire a c array out listed_out sum_out can u b i parses room k k' l =
      let s = server-Serves uuid w i parses room in
      let (p', w', administered, sound, greeted) =
        admin-client hash env uuid server w wire a c array 42 out listed_out sum_out s k k' l in
      (
        server,
        registered_margo margo hash usable strdup (dummy_backend env) self 42 (some args_init) m,
        p',
        w',
        register-ok margo hash usable strdup (dummy_backend env) self 42 (some args_init) m n can u
            b,
        administered
            ∙ ap
                (λ (xs : List (CacheId × Cache Heap)).
                  ok (some (uuid, take 4 (ids hash xs ++ uuid ∷ []), p', w')))
                hash.items-empty,
        greeted,
      )
