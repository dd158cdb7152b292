-- ===== src/Tests/Invalid.antt =====
-- The theorem on test_invalid of tests/test-admin.c, on a provider with one cache.
use cachercise.Base.{◌≡◌, ◌+◌, refl, none, some, [], ◌∷◌, arith, if◌then◌else◌}
use text.Mathlib.Text.{◌==◌ as str_eq}
use cachercise.Base.Run.{ok}
use cachercise.Common.{null}
use cachercise.Admin.{Admin}
use cachercise.Dummy.Memory.{Env, Heap}
use cachercise.Dummy.Ownership.{live, IsHeap}
use cachercise.Dummy.Fulfils.{dummy_backend-Contract}
use cachercise.Dummy.{dummy_backend}
use cachercise.Table.{list_table, lookup}
use cachercise.Provider.{Provider, Cache, find_cache}
use cachercise.Provider.Backends.{first_named}
use cachercise.Provider.Undone.{Restored}
use cachercise.Client.Calls.{not_forwarded}
use cachercise.UnitTests.{test_invalid}
use cachercise.UnitTests.Invalid.{Testable, test_invalid-passes}
use cachercise.Tests.Fixtures.{heap, heap-IsHeap, Items, hash, unset}

abbrev picky : Env
picky = record {
  parse_ex = λ s. if str_eq s "{ashqw{" then null else 5;
  new_object = 6;
  mutex_of = λ p. p + 100;
  vector_max = 1000;
}

abbrev cache : Cache Heap
cache = record { fn = dummy_backend picky; ctx = 1; id = 7 }

abbrev server : Provider Heap Items
server = record {
  provider_id = 42;
  pool = null;
  abtio = null;
  token = some "ABCDEFGH";
  num_backend_types = 1;
  backend_types = dummy_backend picky ∷ [];
  num_caches = 1;
  caches = (7, cache) ∷ [];
  rpc_ids = 1 ∷ 2 ∷ 4 ∷ 8 ∷ [];
}

testable : Testable hash picky 8 server heap
unfolding find_cache list_table lookup first_named dummy_backend
testable = record {
  sound = record {
    heap = heap-IsHeap;
    counted = refl;
    held = (
      record { keyed = refl; contract = dummy_backend-Contract picky; in_use = refl },
      refl,
      tt,
      tt,
    );
    typed = refl;
    backends = (dummy_backend-Contract picky, tt);
  };
  token = refl;
  dummy = refl;
  blah = refl;
  parses = λ e. absurd (omega (arith, e));
  refuses = refl;
  room = omega arith;
  unused = refl;
  zero_unused = refl;
  not_zero = refl;
}

abbrev admin : Admin
admin = record {
  create_cache_id = 1;
  open_cache_id = 2;
  close_cache_id = 3;
  destroy_cache_id = 4;
  list_caches_id = 5;
}

test_invalid-passes_example :
    (q : Provider Heap Items) × (v : Heap) × (test_invalid hash
        (λ input. not_forwarded)
        50
        none
        admin
        8
        9
        unset
        server
        heap
      ≡ ok (some (q, v)))
    × Restored hash IsHeap live server heap q v
test_invalid-passes_example =
    test_invalid-passes hash picky 8 server heap testable (λ input. not_forwarded) 50 none admin 9
      unset (λ input. refl) (λ e. absurd (omega (arith, e)))
