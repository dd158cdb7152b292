-- ===== src/Examples/Greeting.antt =====
-- main of examples/client.c on a cache of the dummy backend.
use cachercise.Base.{
  ℕ, ◌≡◌, ◌≢◌, refl, ap, ◌∙◌, true, false, Option, none, some, [], ◌∷◌, ◌==◌, arith,
}
use cachercise.Base.Int.{pos, ◌+ℤ◌}
use cachercise.Base.Run.{ok}
use cachercise.Common.{success, CacheId, Ptr, null}
use cachercise.Table.{UtHash}
use cachercise.Messages.{SumOut}
use cachercise.Dummy.Memory.{Env, Heap, emit, printed}
use cachercise.Dummy.{dummy_backend, say_hello}
use cachercise.Provider.{Cache, Provider, find_cache}
use cachercise.Provider.Listing.{ids}
use cachercise.Provider.Handlers
use cachercise.Client.{
  Handle, Client, client_init, cache_handle_create, cache_handle_release, client_finalize,
  find_handle,
}
use cachercise.Client.Handles.{IsClient}
use cachercise.Client.Lifetime.{create-release}
use cachercise.Client.Calls
use cachercise.EndToEnd.Sums.{served_sum, served_sum-adds}
use cachercise.Examples.{Machine, client_main}

-- Everything that a program needs of its machine is there.
pub record Works (m : Machine) : Type 0 where
  pub lookup : m.lookup ≡ true
  pub addr_free : m.addr_free ≡ true
  pub memory : m.memory ≢ null
  pub handle_memory : m.handle_memory ≢ null
  pub addr : ℕ
  pub dup : m.dup ≡ some addr

says_hello :
    (env : Env) (p : Ptr) (w : Heap)
    → (dummy_backend env).hello p w ≡ ok (emit (printed "Hello World from Dummy cache\n") w)
unfolding dummy_backend say_hello
says_hello env p w = refl

abbrev new_client : ℕ × ℕ × ℕ → Client
new_client (sum, hello, io) = record {
  hello_id = hello;
  sum_id = sum;
  io_id = io;
  num_cache_handles = 0;
  handles = [];
  freed_addrs = [];
}

abbrev rpcs : Option (ℕ × ℕ × ℕ) → ℕ × ℕ × ℕ → ℕ × ℕ × ℕ
rpcs none new = new
rpcs (some known) new = known

client_init-new :
    (memory : Ptr) (registered : Option (ℕ × ℕ × ℕ)) (new : ℕ × ℕ × ℕ)
    → memory ≢ null
    → client_init memory registered new ≡ (success, some (new_client (rpcs registered new)))
unfolding client_init
client_init-new memory none new n =
    let there : (memory == null) ≡ false = ground arith in rw there refl
client_init-new memory (some known) new n =
    let there : (memory == null) ≡ false = ground arith in rw there refl

new_client-IsClient : (ids : ℕ × ℕ × ℕ) → IsClient (new_client ids)
new_client-IsClient ids = record { counted = refl; referred = tt }

no_handle : (h : Ptr) → find_handle h [] ≡ none
unfolding find_handle
no_handle h = refl

served_sum-68 :
    {T : Type 0} (hash : UtHash T (Cache Heap)) (env : Env) (p : Provider Heap T) (r : Cache Heap)
    (out : SumOut) (handle : Handle) (w : Heap)
    → find_cache hash p handle.cache_id ≡ some r
    → r.fn ≡ dummy_backend env
    → served_sum hash p out handle (pos 45) (pos 23) w ≡ ok (success, some (pos 68), w)
unfolding ◌+ℤ◌
served_sum-68 hash env p r out handle w f b =
    served_sum-adds hash p env r out handle (pos 45) (pos 23) w f b

module _ {T : Type 0} (hash : UtHash T (Cache Heap)) (env : Env) where
  -- The calls of client.c in their order.
  client_run :
      (m : Machine) (provider_id : ℕ) (id : CacheId) (out : SumOut) (p : Provider Heap T) (w : Heap)
      (r : Cache Heap)
      → (k : Works m) → find_cache hash p id ≡ some r
      → r.fn ≡ dummy_backend env
      → (c c' : Client) → client_init m.memory m.registered_client m.new_client ≡ (success, some c)
      → cache_handle_create m.handle_memory m.dup provider_id id c ≡ (success, m.handle_memory, c')
      → find_handle m.handle_memory c'.handles
        ≡ some (record { addr = k.addr; provider_id = provider_id; refcount = 1; cache_id = id })
      → cache_handle_release m.handle_memory c'
        ≡ ok (success, record c { freed_addrs = k.addr ∷ c.freed_addrs })
      → c.num_cache_handles ≡ 0
      → client_main hash m 4 36 provider_id id out p w
        ≡ ok (some (pos 68, none, emit (printed "Hello World from Dummy cache\n") w))
  unfolding client_main client_finalize Calls.say_hello Handlers.hello
  client_run m provider_id id out p w r k f b c c' inited made found released counted =
      let greeted = ap (λ (t : _). t.hello r.ctx w) b ∙ says_hello env r.ctx w in
      let summed =
        served_sum-68 hash env p r out
          (record { addr = k.addr; provider_id = provider_id; refcount = 1; cache_id = id })
          (emit (printed "Hello World from Dummy cache\n") w) f b in
      rw (inited, k.lookup, made, found, f, greeted, summed, released, counted, k.addr_free) refl

  -- Where the id names a cache of the dummy backend, client.c logs the sum of 45 and 23, and leaves no
  -- handle to warn of; the server has said hello.
  pub client_main-sums :
      (m : Machine) (provider_id : ℕ) (id : CacheId) (out : SumOut) (p : Provider Heap T) (w : Heap)
      (r : Cache Heap)
      → Works m
      → find_cache hash p id ≡ some r
      → r.fn ≡ dummy_backend env
      → client_main hash m 4 36 provider_id id out p w
        ≡ ok (some (pos 68, none, emit (printed "Hello World from Dummy cache\n") w))
  client_main-sums m provider_id id out p w r k f b =
      let c = new_client (rpcs m.registered_client m.new_client) in
      let (c', made, made-IsClient, found, released) =
        create-release m.handle_memory k.addr provider_id id c (new_client-IsClient _)
          k.handle_memory (no_handle m.handle_memory) in
      client_run m provider_id id out p w r k f b c c'
        (client_init-new m.memory m.registered_client m.new_client k.memory)
        (ap (λ d. cache_handle_create m.handle_memory d provider_id id c) k.dup ∙ made) found
        released refl
