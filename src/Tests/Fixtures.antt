-- ===== src/Tests/Fixtures.antt =====
-- A dummy backend with one context in use, and a provider with that context behind its only cache.
use cachercise.Base.{ℕ, ◌+◌, refl, none, some, List, [], ◌∷◌, arith, ◌==◌, if◌then◌else◌}
use cachercise.Common.{null, success}
use cachercise.Messages.{CreateCacheOut}
use cachercise.EndToEnd.Created.{Serves}
use cachercise.Provider.Backends.{first_named}
use cachercise.Provider.{find_cache}
use cachercise.Backend.{BackendImpl}
use cachercise.Dummy.Memory.{Env, Context, Heap}
use cachercise.Dummy.Ownership.{live, IsHeap}
use cachercise.Dummy.Fulfils.{dummy_backend-Contract}
use cachercise.Dummy.{dummy_backend}
use cachercise.Table.{UtHash, list_table, lookup}
use cachercise.Provider.Sound.{IsSound}
use cachercise.Provider.{Cache, Provider}

abbrev pub env : Env
env = record { parse_ex = λ s. 5; new_object = 6; mutex_of = λ p. p + 100; vector_max = 1000 }

abbrev pub dummy : BackendImpl Heap
dummy = dummy_backend env

abbrev pub context : Context
context = record { config = 6; h = 2; hoard_mutex = 101 }

abbrev pub heap : Heap
heap = record {
  contexts = λ p. if p == 1 then some context else none;
  hoards = λ h. if h == 2 then some (10 ∷ 20 ∷ []) else none;
  next = 3;
  room = 10;
  events = [];
}

pub heap-IsHeap : IsHeap heap
heap-IsHeap = record {
  next_pos = omega arith;
  null_context = refl;
  null_hoard = refl;
  unused_context = λ p l. ground arith;
  unused_hoard = λ p l. ground arith;
  owned = λ p c e n. ground arith;
  distinct = λ p q c d e f g n. ground arith;
}

abbrev pub Items : Type 0
Items = List (ℕ × Cache Heap)

abbrev pub hash : UtHash Items (Cache Heap)
hash = list_table (Cache Heap)

abbrev pub cache : Cache Heap
cache = record { fn = dummy; ctx = 1; id = 7 }

abbrev pub provider : Provider Heap Items
provider = record {
  provider_id = 1;
  pool = null;
  abtio = null;
  token = some "secret";
  num_backend_types = 1;
  backend_types = dummy ∷ [];
  num_caches = 1;
  caches = (7, cache) ∷ [];
  rpc_ids = 1 ∷ 2 ∷ 4 ∷ 8 ∷ [];
}

pub provider-IsSound : IsSound hash IsHeap live provider heap
unfolding list_table lookup
provider-IsSound = record {
  heap = heap-IsHeap;
  counted = refl;
  held =
      (record { keyed = refl; contract = dummy_backend-Contract env; in_use = refl }, refl, tt, tt);
  typed = refl;
  backends = (dummy_backend-Contract env, tt);
}

-- The same provider without a token.
abbrev pub open_provider : Provider Heap Items
open_provider = record provider { token = none }

pub serves : Serves hash env 8 open_provider heap
unfolding find_cache list_table lookup first_named dummy_backend
serves = record {
  sound = record {
    heap = provider-IsSound.heap;
    counted = provider-IsSound.counted;
    held = provider-IsSound.held;
    typed = provider-IsSound.typed;
    backends = provider-IsSound.backends;
  };
  open_to_all = refl;
  dummy = refl;
  parses = λ e. absurd (omega (arith, e));
  room = omega arith;
  unused = refl;
  few = omega arith;
}

abbrev pub unset : CreateCacheOut
unset = record { ret = success; id = 0 }
