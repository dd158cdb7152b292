-- ===== src/Tests/Lifecycles.antt =====
-- The theorems on registering and destroying a provider, on an empty Margo instance, and a write and a
-- read of a client through the provider to the dummy backend.
use cachercise.Base.{ℕ, ◌+◌, ◌≡◌, refl, String, true, Option, none, some, List, [], ◌∷◌, arith}
use cachercise.Base.Run.{ok, fault, undefined, Returns}
use cachercise.Common.{ReturnCode, success, write, read}
use cachercise.Messages.{IoOut}
use cachercise.Dummy.Memory.{Heap}
use cachercise.Dummy.Ownership.{live, IsHeap}
use cachercise.Dummy.Fulfils.{dummy_backend-Contract}
use cachercise.Table.{list_table, lookup}
use cachercise.Client.{Handle}
use cachercise.Client.Bytes.{AllBytes}
use cachercise.Provider.Sound.{IsSound}
use cachercise.Provider.Listing.{Emptied}
use cachercise.Provider.Lifecycle.{register, destroy}
use cachercise.Provider.Register.{
  CanRegister, registered_ids, registered_margo, registered, registered-IsSound,
}
use cachercise.Provider.Requests.{Reachable}
use cachercise.Provider.Sessions.{session-restores}
use cachercise.Provider.{Provider, check_token, find_cache}
use cachercise.Bedrock.{BedrockArgs, register_provider}
use cachercise.Bedrock.Tokens.{register_provider-accepts}
use cachercise.EndToEnd.{served_io, served_write-read}
use cachercise.Tests.Instances.{Instance, list_margo, empty_instance}
use cachercise.Provider.Undone.{Restored}
use cachercise.EndToEnd.Created.{served_create}
use cachercise.EndToEnd.Opened.{served_open, served_close, served_open-close}
use cachercise.Client.Calls.{scratch_in}
use cachercise.EndToEnd.Destroyed.{served_destroy, served_create-destroy}
use cachercise.Tests.Fixtures.{
  open_provider, serves, unset, env, dummy, context, heap, heap-IsHeap, Items, hash, cache,
  provider, provider-IsSound,
}

-- A block of sixteen bytes at least.
abbrev usable : ℕ → Option ℕ
usable n = some (n + 15)

abbrev ids : List ℕ
ids = registered_ids list_margo hash usable true dummy 50 1 none empty_instance

abbrev serving : Instance
serving = registered_margo list_margo hash usable true dummy 50 1 none empty_instance

-- The provider of the registration after some requests.
abbrev in_use : Provider Heap Items
in_use = record provider { rpc_ids = ids }

in_use-IsSound : IsSound hash IsHeap live in_use heap
in_use-IsSound = record {
  heap = provider-IsSound.heap;
  counted = provider-IsSound.counted;
  held = provider-IsSound.held;
  typed = provider-IsSound.typed;
  backends = provider-IsSound.backends;
}

can_register : CanRegister list_margo hash usable true dummy 50 1 none empty_instance
can_register = record { listening = refl; free = refl; allocated = omega arith }

session-restores_example :
    (p : Provider Heap Items) × (m₁ : Instance) × (register list_margo hash usable true dummy 50 1
        none empty_instance
      ≡ ok (success, some p, m₁))
    × ((p' : Provider Heap Items) (w' : Heap)
        → Reachable hash p heap p' w'
        → Returns
            (λ (ret, m', w'').
              (ret ≡ success)
              × (m'.rpcs ≡ [])
              × (m'.callbacks ≡ [])
              × ((t : Items) × Emptied hash IsHeap live (hash.items p'.caches) w' t w''))
            (destroy list_margo hash 50 p' m₁ w'))
session-restores_example =
    session-restores list_margo hash usable true dummy 50 1 none empty_instance 16 IsHeap live heap
      can_register refl (omega arith) (dummy_backend-Contract env) heap-IsHeap

registered-IsSound_example :
    IsSound hash IsHeap live
      (registered list_margo hash usable true dummy 50 1 none empty_instance)
      heap
registered-IsSound_example =
    registered-IsSound list_margo hash usable true dummy 50 1 none empty_instance IsHeap live heap
      (dummy_backend-Contract env) heap-IsHeap

abbrev bedrock : BedrockArgs
bedrock = record { provider_id = 3; pool = 70; abt_io = 71 }

register_provider-accepts_example :
    (p : Provider Heap Items) × (m' : Instance) × (register_provider list_margo hash usable true
        dummy 50 bedrock empty_instance
      ≡ ok (success, some p, m'))
    × ((token : Option String) → check_token p token ≡ ok true)
register_provider-accepts_example =
    register_provider-accepts list_margo hash usable true dummy 50 bedrock empty_instance 16
      (record { listening = refl; free = refl; allocated = omega arith }) refl (omega arith)

abbrev handle : Handle
handle = record { addr = 40; provider_id = 1; refcount = 1; cache_id = 7 }

found : find_cache hash provider 7 ≡ some cache
unfolding find_cache list_table lookup
found = refl

abbrev stack : IoOut
stack = record { bytes = 0; scratch = 0; result = 0; ret = success }

abbrev sent : List ℕ
sent = 1 ∷ 2 ∷ 3 ∷ 4 ∷ 5 ∷ 6 ∷ 7 ∷ 255 ∷ []

abbrev blank : List ℕ
blank = 0 ∷ 0 ∷ 0 ∷ 0 ∷ 0 ∷ 0 ∷ 0 ∷ 0 ∷ []

sent-AllBytes : AllBytes sent
sent-AllBytes = (
  omega arith,
  (
    omega arith,
    (omega arith, (omega arith, (omega arith, (omega arith, (omega arith, (omega arith, tt)))))),
  ),
)

served_write-read_example :
    (w' : Heap) × (served_io hash provider stack 9 handle sent 8 4 write heap ≡ ok (8, sent, w'))
    × (served_io hash provider stack 9 handle blank 8 4 read w' ≡ ok (8, sent, w'))
served_write-read_example =
    served_write-read hash env provider cache handle found refl context (10 ∷ 20 ∷ []) stack stack 9
      9 sent blank 4 heap refl refl (omega arith) (omega arith) refl sent-AllBytes refl

served_create-destroy_example :
    (p' q : Provider Heap Items) × (w' v : Heap) × (served_create hash true 8 unset open_provider
        heap none
        (some "dummy")
        (some "{}")
      ≡ ok (success, some 8, p', w'))
    × (served_destroy hash p' w' none 8 ≡ ok (success, q, v))
    × Restored hash IsHeap live open_provider heap q v
served_create-destroy_example = served_create-destroy hash env 8 open_provider heap serves unset

served_open-close_example :
    (p' q : Provider Heap Items) × (w' v : Heap) × (ret : ReturnCode) × (served_open hash true 8
        unset open_provider heap none
        (some "dummy")
        (some "{}")
      ≡ ok (success, some 8, p', w'))
    × ((answer : IoOut) (stack scratch : ℕ) (handle : Handle) (buf : List ℕ) (count offset kind : ℕ)
        → handle.cache_id ≡ 8
        → scratch_in stack buf count kind ≡ ok scratch
        → served_io hash p' answer stack handle buf count offset kind w' ≡ fault undefined)
    × (served_close hash p' w' none 8 ≡ ok (ret, q, v))
    × Restored hash IsHeap live open_provider heap q v
served_open-close_example = served_open-close hash env 8 open_provider heap serves unset
