-- ===== src/Tests/Streams.antt =====
-- The theorems on handlers of several execution streams, on a provider with the dummy backend.
use cachercise.Base.{ℕ, ◌≡◌, ◌∙◌, refl, ap, true, some, List, arith, ◌==◌, if◌then◌else◌}
use cachercise.Base.Run.{ok, fault, undefined}
use cachercise.Common.{success, write}
use cachercise.Messages.{CreateCacheIn, CloseCacheIn, IoIn, IoOut}
use cachercise.Table.{list_table, lookup}
use cachercise.Dummy.{dummy_backend}
use cachercise.Dummy.Memory.{Heap, emit, set_context, set_hoard}
use cachercise.Dummy.Ownership.{live, IsHeap}
use cachercise.Dummy.Lifecycle.{created}
use cachercise.EndToEnd.Created.{create_cache-created, dummy_backend-create}
use cachercise.Provider.{check_token, strcmp_eq, find_backend_impl, find_loop, find_cache}
use cachercise.Provider.Streams.{System, interleave, Shared}
use cachercise.Provider.Streams.Requests.{Request, Answer, create_cache, io, handler}
use cachercise.Provider.Streams.Freed.{removal, removal-frees}
use cachercise.Provider.Streams.Lost.{Accepts, Miscounted, creations-miscount}
use cachercise.Tests.Fixtures.{env, dummy, heap, hash, cache, provider, provider-IsSound, unset}

abbrev anything : IoOut
anything = record { bytes = 3; scratch = 4; result = 5; ret = success }

-- The `t`-th client writes `t` as the item `t` of the cache.
abbrev item : ℕ → IoIn
item t = record { cache_id = 7; count = 8; offset = t; scratch = t; kind = write }

abbrev writes : ℕ → Request
writes t = io anything (some (item t))

abbrev old_cache : CloseCacheIn
old_cache = record { token = some "secret"; id = 7 }

removal-frees_example :
    (schedule : List ℕ) × (interleave schedule (record {
      shared = (provider, heap);
      stream =
          λ t. if t == 0 then handler hash (writes 0) else handler hash (removal true old_cache);
    })
      ≡ fault undefined)
unfolding check_token strcmp_eq find_cache list_table lookup
removal-frees_example =
    removal-frees hash IsHeap live provider heap provider-IsSound (writes 0) true old_cache cache
      refl refl refl

abbrev new_cache : CreateCacheIn
new_cache = record { type = some "dummy"; config = some "{}"; token = some "secret" }

abbrev after_one : Heap
after_one = created env 5 heap

accepts :
    Accepts hash provider heap 8 new_cache dummy 3 after_one
    × Accepts hash provider after_one 9 new_cache dummy after_one.next (created env 5 after_one)
unfolding check_token strcmp_eq find_backend_impl find_loop find_cache list_table lookup
    dummy_backend emit set_context set_hoard
accepts = (
  record {
    admitted = refl;
    backend = refl;
    creates =
        ap (λ f. f (some "{}") heap) (dummy_backend-create env)
        ∙ create_cache-created env "{}" heap (λ e. absurd (omega (arith, e))) (omega arith);
    unused = refl;
  },
  record {
    admitted = refl;
    backend = refl;
    creates =
        ap (λ f. f (some "{}") after_one) (dummy_backend-create env)
        ∙ create_cache-created env "{}" after_one (λ e. absurd (omega (arith, e))) (omega arith);
    unused = refl;
  },
)

creations-miscount_example :
    (schedule : List ℕ) × (s : System (Shared hash) Answer) × (interleave schedule (record {
      shared = (provider, heap);
      stream = λ t.
          if t == 0
          then handler hash (create_cache true 8 unset (some new_cache))
          else handler hash (create_cache true 9 unset (some new_cache));
    })
      ≡ ok s)
    × Miscounted hash IsHeap live provider 8 9 s
unfolding list_table
creations-miscount_example =
    creations-miscount hash IsHeap live provider heap after_one (created env 5 after_one) 8 9 unset
      unset new_cache new_cache dummy dummy 3 after_one.next provider-IsSound (omega arith)
      (λ e. absurd (omega (arith, e))) accepts.0 accepts.1
