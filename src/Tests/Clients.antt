-- ===== src/Tests/Clients.antt =====
-- The client's theorems on a client with two handles, and the wire's on lists of numbers.
use cachercise.Base.{◌≡◌, refl, none, some, [], ◌∷◌, arith}
use cachercise.Base.Run.{ok}
use cachercise.Common.{success}
use cachercise.Messages.{ListCachesOut}
use cachercise.Client.{Handle, Client, find_handle, cache_handle_create, cache_handle_release}
use cachercise.Client.Handles.{IsClient, Recounted}
use cachercise.Client.Freeing.{Freed}
use cachercise.Client.Lifetime.{releases, releases-in_use, releases-Freed, create-release}

abbrev shared : Handle
shared = record { addr = 40; provider_id = 1; refcount = 3; cache_id = 7 }

abbrev single : Handle
single = record { addr = 41; provider_id = 1; refcount = 1; cache_id = 8 }

abbrev client : Client
client = record {
  hello_id = 1;
  sum_id = 2;
  io_id = 3;
  num_cache_handles = 2;
  handles = (5, shared) ∷ (6, single) ∷ [];
  freed_addrs = [];
}

client-IsClient : IsClient client
unfolding find_handle
client-IsClient = record {
  counted = refl;
  referred = (
    omega arith,
    omega arith,
    omega arith,
    refl,
    (omega arith, omega arith, omega arith, refl, tt),
  );
}

shared-found : find_handle 5 client.handles ≡ some shared
unfolding find_handle
shared-found = refl

releases-Freed_example :
    (c' : Client) × (releases 3 5 client ≡ ok (success ∷ success ∷ success ∷ [], c'))
    × Freed 5 shared client c'
releases-Freed_example =
    releases-Freed 3 5 shared client client-IsClient shared-found refl (omega arith)

releases-in_use_example :
    (c' : Client) × (releases 2 5 client ≡ ok (success ∷ success ∷ [], c'))
    × Recounted 5 shared 1 client c'
releases-in_use_example =
    releases-in_use 1 5 shared client client-IsClient shared-found (omega arith)

abbrev listed : ListCachesOut
listed = record { ret = success; count = 2; ids = some (7 ∷ 8 ∷ 9 ∷ []) }

unused_9 : find_handle 9 client.handles ≡ none
unfolding find_handle
unused_9 = refl

create-release_example :
    (c' : Client) × (cache_handle_create 9 (some 42) 1 7 client ≡ (success, 9, c'))
    × IsClient c'
    × (find_handle 9 c'.handles
        ≡ some (record { addr = 42; provider_id = 1; refcount = 1; cache_id = 7 }))
    × (cache_handle_release 9 c' ≡ ok (success, record client { freed_addrs = 42 ∷ [] }))
create-release_example = create-release 9 42 1 7 client client-IsClient (omega arith) unused_9
