-- ===== src/Tests/Examples.antt =====
-- The example programs on an empty Margo instance, with an empty backend memory.
use cachercise.Base.{ℕ, ◌+◌, ◌≡◌, refl, true, Option, none, some, [], ◌∷◌, arith}
use cachercise.Base.Int.{pos}
use cachercise.Base.Run.{ok}
use cachercise.Common.{success}
use cachercise.Messages.{CreateCacheOut, ListCachesOut, SumOut}
use cachercise.Dummy.Memory.{Heap, emit, printed}
use cachercise.Dummy.Ownership.{IsHeap}
use cachercise.Provider.{Provider}
use cachercise.Examples.{Machine, server_main, admin_main, client_main}
use cachercise.Examples.Greeting.{Works}
use cachercise.Examples.Session.{server-admin-client}
use cachercise.Tests.Instances.{Instance, list_margo, empty_instance, number_wire}
use cachercise.Tests.Fixtures.{env, Items, hash}

abbrev usable : ℕ → Option ℕ
usable n = some (n + 15)

abbrev machine : Machine
machine = record {
  lookup = true;
  addr_free = true;
  memory = 60;
  handle_memory = 61;
  registered_admin = none;
  new_admin = record {
    create_cache_id = 1;
    open_cache_id = 2;
    close_cache_id = 3;
    destroy_cache_id = 4;
    list_caches_id = 5;
  };
  registered_client = none;
  new_client = (6, 7, 8);
  dup = some 41;
}

machine-Works : Works machine
machine-Works = record {
  lookup = refl;
  addr_free = refl;
  memory = λ e. absurd (omega (arith, e));
  handle_memory = λ e. absurd (omega (arith, e));
  addr = 41;
  dup = refl;
}

abbrev empty_heap : Heap
empty_heap = record { contexts = λ p. none; hoards = λ h. none; next = 1; room = 2; events = [] }

empty_heap-IsHeap : IsHeap empty_heap
empty_heap-IsHeap = record {
  next_pos = omega arith;
  null_context = refl;
  null_hoard = refl;
  unused_context = λ p l. refl;
  unused_hoard = λ p l. refl;
  owned = λ p c e n. cc;
  distinct = λ p q c d e f g n. cc;
}

abbrev unset : CreateCacheOut
unset = record { ret = success; id = 0 }

abbrev unset_list : ListCachesOut
unset_list = record { ret = success; count = 0; ids = none }

abbrev unset_sum : SumOut
unset_sum = record { result = pos 0; ret = success }

server-admin-client_example :
    (p : Provider Heap Items) × (m' : Instance) × (p' : Provider Heap Items) × (w' : Heap)
    × (server_main list_margo hash usable true env 50 empty_instance ≡ ok (success, some p, m'))
    × (admin_main hash number_wire machine 3 (0 ∷ 0 ∷ 0 ∷ 0 ∷ []) 7 unset unset_list p empty_heap
        ≡ ok (some (7, 7 ∷ [], p', w')))
    × (client_main hash machine 4 36 42 7 unset_sum p' w'
        ≡ ok (some (pos 68, none, emit (printed "Hello World from Dummy cache\n") w')))
server-admin-client_example =
    server-admin-client list_margo hash usable true env 50 empty_instance 16 7 empty_heap
      number_wire machine machine (0 ∷ 0 ∷ 0 ∷ 0 ∷ []) unset unset_list unset_sum
      (record { listening = refl; free = refl; allocated = omega arith }) refl (omega arith)
      empty_heap-IsHeap (omega arith) (omega arith) machine-Works machine-Works refl
