-- ===== src/Tests/Benchmark.antt =====
-- The benchmark with two processes of two items each, on a cache that is created; its command line; and
-- its main function.
use cachercise.Base.{
  ℕ, ◌*◌, ◌≡◌, refl, String, true, Option, none, some, [], ◌∷◌, arith, if◌then◌else◌, ◌⊎◌,
}
use cachercise.Base.Int.{ℤ, pos}
use cachercise.Base.Run.{ok, fault, undefined}
use cachercise.Common.{success}
use cachercise.Messages.{IoOut}
use cachercise.Dummy.Memory.{Heap}
use cachercise.Client.{Handle}
use cachercise.Provider.{Provider}
use cachercise.Cachebench.{Bench, Reach, start, verify}
use cachercise.EndToEnd.Created.{larger, after, served_create, served_create-creates}
use cachercise.Cachebench.Turns.{benchmark, benchmark-passes}
use cachercise.Cachebench.Created.{
  Hosts, AllWritten, AllSucceeded, served_create-finishes, served_create-verify,
}
use text.Mathlib.Text.{◌==◌ as str_eq}
use text.Mathlib.TextEquality.{eq_iff}
use cachercise.Client.Calls.{output, no_output}
use cachercise.Cachebench.Config.Keys.{parse_json-config}
use cachercise.Cachebench.Config.{
  Value, int, Json, Files, group, override_integer, has_or_create, parse_json, parse_args,
}
use cachercise.Cachebench.Main.{Answers, main}
use cachercise.Cachebench.Main.Cleanup.{main-unset}
use cachercise.Tests.Fixtures.{open_provider, serves, unset, env, heap, Items, hash}

hosts : Hosts hash env 8 open_provider heap (2 * 2)
hosts = record {
  serves = serves;
  addressable = omega arith;
  room = omega arith;
  small = omega arith;
}

abbrev handle : Handle
handle = record { addr = 40; provider_id = 1; refcount = 1; cache_id = 8 }

abbrev stack : IoOut
stack = record { bytes = 0; scratch = 0; result = 0; ret = success }

-- The server when the cache is there.
abbrev server : Provider Heap Items
server = larger hash env 8 open_provider heap serves

abbrev memory : Heap
memory = after hash env 8 open_provider heap serves

made :
    served_create hash true 8 unset open_provider heap none (some "dummy") (some "{}")
    ≡ ok (success, some 8, server, memory)
made = served_create-creates hash env 8 open_provider heap serves unset

abbrev begun : Bench
begun = record { written = λ rank. 0; returned = λ rank. []; memory = memory }

served_create-finishes_example :
    (t : Bench) × Reach hash server handle 2 2 memory t
    × AllWritten hash env 8 open_provider heap 2 2 hosts handle refl t
    × AllSucceeded hash env 8 open_provider heap 2 2 hosts handle refl t
    × ((stacks : ℕ → IoOut × ℕ) → verify hash server handle stacks 2 2 t.memory ≡ ok 0)
served_create-finishes_example =
    served_create-finishes hash env 8 open_provider heap 2 2 hosts handle refl unset server memory
      begun made start

ended :
    (t : Bench) × Reach hash server handle 2 2 memory t
    × AllWritten hash env 8 open_provider heap 2 2 hosts handle refl t
    × AllSucceeded hash env 8 open_provider heap 2 2 hosts handle refl t
    × ((stacks : ℕ → IoOut × ℕ) → verify hash server handle stacks 2 2 t.memory ≡ ok 0)
ended =
    served_create-finishes hash env 8 open_provider heap 2 2 hosts handle refl unset server memory
      begun made start

served_create-verify_example : verify hash server handle (λ j. (stack, 9)) 2 2 ended.0.memory ≡ ok 0
served_create-verify_example =
    served_create-verify hash env 8 open_provider heap 2 2 hosts handle refl unset server memory
      ended.0 (λ j. (stack, 9)) made ended.1 ended.2

benchmark-passes_example :
    benchmark hash 2 2 (λ j. (stack, 9)) 8 unset handle open_provider heap ≡ ok 0
benchmark-passes_example =
    benchmark-passes hash env 8 open_provider heap 2 2 hosts handle refl (λ j. (stack, 9)) unset

-- A JSON object is a function from its keys.
abbrev Object : Type 0
Object = String → Option Value

function_json : Json Object
function_json = record {
  get = λ k o. o k;
  add = λ k v o j. if str_eq k j then some v else o j;
  del = λ k o j. if str_eq k j then none else o j;
  get-del_ne = λ k j o n. rw n refl;
  get-add = λ k v o. let same : str_eq k k ≡ true = (eq_iff k k).1 refl in rw same refl;
  get-add_ne = λ k j v o n. rw n refl;
}

-- It asks for two processes and says nothing of items.
abbrev asked : Object
asked key = if str_eq "nranks" key then some (int (pos 2)) else none

abbrev configured : Object
configured key =
    if str_eq "items_per_process" key
    then some (int (pos 100))
    else (if str_eq "nranks" key then some (int (pos 16)) else asked key)

abbrev files : Files Object
files = record { contents = λ f. some "{ \"nranks\" : 2 }"; memory = true; parse = λ t. some asked }

accepted : parse_json function_json files 16 "bench.json" ≡ some configured
unfolding parse_json override_integer has_or_create function_json
accepted = refl

parse_json-config_example :
    (function_json.get "nranks" configured ≡ some (int (pos 16)))
    × ((n : ℤ) × (function_json.get "items_per_process" configured ≡ some (int n))
        × ((function_json.get "items_per_process" asked ≡ some (int n))
            ⊎ ((function_json.get "items_per_process" asked ≡ none) × (n ≡ pos 100))))
parse_json-config_example =
    parse_json-config function_json files 16 "bench.json" "{ \"nranks\" : 2 }" asked configured refl
      refl accepted

-- The servers' group cannot be refreshed.
abbrev answers : Answers
answers = record {
  margo_init = true;
  ssg_init = 0;
  group_load = 0;
  group_refresh = 5;
  member_id = 0;
  member_addr = 0;
  lookup = 0;
  admin_memory = 60;
  client_memory = 61;
  handle_memory = 62;
  registered_admin = none;
  new_admin = record {
    create_cache_id = 1;
    open_cache_id = 2;
    close_cache_id = 3;
    destroy_cache_id = 4;
    list_caches_id = 5;
  };
  registered_client = none;
  new_client = (6, 7, 8);
  transport = λ input. output (record { ret = success; id = 7 });
  broadcast = 7;
  dup = some 41;
  nprocs = 2;
  get_int = λ v. 2;
  rounds = record {
    write_stack = λ i. 0;
    write_transport = λ i input. output stack;
    read_stack = λ j. 0;
    read_transport = λ j input. no_output;
  };
  margo_config = some "{}";
}

-- Words are given with their lengths; here all arguments are words of ten characters.
main-unset_example :
    main function_json files answers 0
      (parse_args function_json files 16 (λ a. some (10, a)) (group "group.ssg" ∷ []))
    ≡ fault undefined
main-unset_example =
    main-unset function_json files 16 (λ a. some (10, a)) (group "group.ssg" ∷ []) answers 0
      ((10, "group.ssg", refl, omega arith), tt)
