-- ===== src/Tests/Providers.antt =====
-- The theorems on providers, on one with a token, the dummy backend and one cache.
use cachercise.Base.{◌*◌, ◌≡◌, refl, String, true, false, Option, none, some, [], ◌∷◌, arith, inr}
use cachercise.Base.Run.{◌>>=◌, ok, fault, undefined, Returns, Returns-ok}
use cachercise.Common.{success, read}
use cachercise.Dummy.Memory.{Heap}
use cachercise.Dummy.Ownership.{live, IsHeap}
use cachercise.Table.{list_table}
use cachercise.Messages.{
  CreateCacheIn, CreateCacheOut, CloseCacheIn, CloseCacheOut, ListCachesOut, SumIn, SumOut, IoIn,
  IoOut,
}
use cachercise.Provider.Sound.{IsSound}
use cachercise.Provider.Handlers.{create_cache, open_cache, close_cache, destroy_cache}
use cachercise.Dummy.Fulfils.{dummy_backend-Contract}
use cachercise.Provider.Lifecycle.{register_backend}
use cachercise.Provider.Registered.{or_last, register_backend-found}
use cachercise.Provider.Listing.{Emptied, remove_all_caches-Emptied}
use cachercise.Provider.Outcomes.{Closed, close_cache-Closed, destroy_cache-Closed}
use cachercise.Provider.Creation.{Outcome, create_cache-Outcome, open_cache-Outcome}
use cachercise.Provider.{
  Cache, Provider, check_token, strcmp_eq, find_cache, find_backend_impl, remove_all_caches,
}
use cachercise.Provider.Requests.{Reachable, start, next, closed}
use cachercise.Provider.Sessions.{Reachable-IsSound}
use cachercise.EndToEnd.Listed.{served_list, overlay, served_list-ids, served_list-null}
use cachercise.Base.Int.{pos}
use cachercise.Tests.Instances.{number_wire}
use cachercise.Tests.Fixtures.{env, dummy, heap, Items, hash, provider, provider-IsSound}

abbrev new_cache : CreateCacheIn
new_cache = record { type = some "dummy"; config = none; token = some "secret" }

abbrev stack : CreateCacheOut
stack = record { ret = success; id = 0 }

create_cache-Outcome_example :
    Outcome hash 8 stack provider heap
      (λ b. b.create_cache)
      "dummy"
      new_cache
      (create_cache hash true 8 stack provider heap (some new_cache))
create_cache-Outcome_example =
    create_cache-Outcome hash 8 stack provider heap "dummy" new_cache refl (inr ("secret", refl))
      refl

open_cache-Outcome_example :
    Outcome hash 7 stack provider heap
      (λ b. b.open_cache)
      "dummy"
      new_cache
      (open_cache hash true 7 stack provider heap (some new_cache))
open_cache-Outcome_example =
    open_cache-Outcome hash 7 stack provider heap "dummy" new_cache refl (inr ("secret", refl)) refl

abbrev old_cache : CloseCacheIn
old_cache = record { token = some "secret"; id = 7 }

close_cache-Closed_example :
    Returns
      (λ (out, p', w'). Closed hash IsHeap live provider heap old_cache out p' w')
      (close_cache hash provider heap (some old_cache))
close_cache-Closed_example =
    close_cache-Closed hash IsHeap live provider heap provider-IsSound old_cache
      (inr ("secret", refl))

destroy_cache-Closed_example :
    Returns
      (λ (out, p', w').
        Closed hash IsHeap live provider heap old_cache out p' w'
        × ((r : Cache Heap)
            → check_token provider (some "secret") ≡ ok true
            → find_cache hash provider 7 ≡ some r
            → out.ret ≡ success))
      (destroy_cache hash provider heap (some old_cache))
destroy_cache-Closed_example =
    destroy_cache-Closed hash IsHeap live provider heap provider-IsSound old_cache
      (inr ("secret", refl))

secret-valid : check_token provider (some "secret") ≡ ok true
unfolding check_token strcmp_eq
secret-valid = refl

abbrev list_stack : ListCachesOut
list_stack = record { ret = success; count = 99; ids = none }

remove_all_caches-Emptied_example :
    Returns
      (λ (p', w').
        IsSound hash IsHeap live p' w'
        × Emptied hash IsHeap live (hash.items provider.caches) heap p'.caches w')
      (remove_all_caches hash provider heap)
remove_all_caches-Emptied_example =
    remove_all_caches-Emptied hash IsHeap live provider heap provider-IsSound

abbrev transfer : IoIn
transfer = record { cache_id = 7; count = 8; offset = 1; scratch = 0; kind = read }

abbrev io_stack : IoOut
io_stack = record { bytes = 0; scratch = 0; result = 0; ret = success }

abbrev summands : SumIn
summands = record { cache_id = 7; x = pos 3; y = pos 4 }

abbrev sum_stack : SumOut
sum_stack = record { result = pos 0; ret = success }

abbrev secret : Option String
secret = some "secret"

served_list-ids_example :
    served_list hash number_wire true true list_stack provider (some "secret") (0 ∷ 0 ∷ []) 2
    ≡ ok (success, 1, 7 ∷ 0 ∷ [])
unfolding list_table overlay
served_list-ids_example =
    served_list-ids hash number_wire provider heap provider-IsSound list_stack (some "secret")
      (0 ∷ 0 ∷ []) 2 (omega arith) secret-valid (omega arith)

served_list-null_example :
    served_list hash number_wire true false list_stack provider (some "secret") (0 ∷ 0 ∷ []) 2
    ≡ fault undefined
unfolding list_table
served_list-null_example =
    served_list-null hash number_wire provider heap provider-IsSound list_stack (some "secret")
      (0 ∷ 0 ∷ []) 2 (omega arith) secret-valid (omega arith) (omega arith)

wrong-invalid : check_token provider (some "wrong") ≡ ok false
unfolding check_token strcmp_eq
wrong-invalid = refl

-- The only cache is closed.
closed_run :
    (x : CloseCacheOut × Provider Heap Items × Heap) × (close_cache hash provider heap
        (some old_cache)
      ≡ ok x)
    × Closed hash IsHeap live provider heap old_cache x.0 x.1 x.2
closed_run = Returns-ok _ (close_cache hash provider heap (some old_cache)) (
    close_cache-Closed hash IsHeap live provider heap provider-IsSound old_cache
      (inr ("secret", refl)))

closed_run-Reachable : Reachable hash provider heap closed_run.0.1 closed_run.0.2
closed_run-Reachable =
    next provider closed_run.0.1 heap closed_run.0.2 start
      (closed closed_run.0.0 (some old_cache) closed_run.1)

Reachable-IsSound_example : IsSound hash IsHeap live closed_run.0.1 closed_run.0.2
Reachable-IsSound_example =
    Reachable-IsSound hash IsHeap live provider heap closed_run.0.1 closed_run.0.2 provider-IsSound
      closed_run-Reachable

register_backend-found_example :
    (p' : Provider Heap Items) × (register_backend (λ n. some (n * 8)) provider dummy
      ≡ ok (success, p'))
    × IsSound hash IsHeap live p' heap
    × ((name : String)
        → find_backend_impl p' (some name)
          ≡ (find_backend_impl provider (some name) >>= λ found. ok (or_last name dummy found)))
register_backend-found_example =
    register_backend-found hash IsHeap live (λ n. some (n * 8)) provider heap dummy 16
      provider-IsSound (dummy_backend-Contract env) refl (omega arith)
