-- ===== src/Examples.antt =====
-- examples/server.c, examples/admin.c and examples/client.c: the main functions of a server, of an
-- administrator, who creates a cache and lists the caches, and of a client, who greets a cache and has it compute a sum, against the
-- handlers of a provider over a transport that delivers. FATAL and exit end the process: the result is
-- `none` then. What is logged is the result; that the ids are logged as text is left out.
pub mod Greeting
pub mod Creation
pub mod Session
use cachercise.Base.{
  ℕ, zero, suc, ◌+◌, Bool, true, false, not, String, Option, none, some, List, [], ◌∷◌, ◌==◌,
  if◌then◌else◌, get_elem?,
}
use cachercise.Base.Int.{ℤ, pos}
use cachercise.Base.Run.{Run, ok, ◌>>=◌, defined}
use cachercise.Common.{ReturnCode, CacheId, Ptr, is_success}
use cachercise.Table.{UtHash}
use cachercise.Messages.{CreateCacheIn, CreateCacheOut, ListCachesOut, SumOut}
use cachercise.Messages.Wire.{Mercury}
use cachercise.Dummy.Memory.{Env, Heap}
use cachercise.Provider.{Cache, Provider}
use cachercise.Provider.Handlers
use cachercise.Provider.Lifecycle.{args_init, register}
use cachercise.Margo.{Margo}
use cachercise.Dummy.{dummy_backend}
use cachercise.Client.{
  client_init, cache_handle_create, cache_handle_release, client_finalize, find_handle,
}
use cachercise.Client.Calls.{Answer, output, say_hello}
use cachercise.Admin.{Admin, admin_init, create_answer}
use cachercise.EndToEnd.Created.{served_create}
use cachercise.EndToEnd.Listed.{served_list}
use cachercise.EndToEnd.Sums.{served_sum}

-- What the C library and Margo give to one of the programs: whether the server's address is found and
-- given back, what `calloc` gives, the RPC ids, and the duplicate of the address.
pub record Machine : Type 0 where
  pub lookup : Bool
  pub addr_free : Bool
  pub memory : Ptr
  pub handle_memory : Ptr
  pub registered_admin : Option Admin
  pub new_admin : Admin
  pub registered_client : Option (ℕ × ℕ × ℕ)
  pub new_client : ℕ × ℕ × ℕ
  pub dup : Option ℕ

-- The loop that logs the ids of the array, at index `i` with `k` rounds left.
unfoldable pub print_ids : (k i : ℕ) → List CacheId → Run (List CacheId)
print_ids zero i ids = ok []
print_ids (suc k) i ids = do
  id ← defined (get_elem? ids i)
  rest ← print_ids k (suc i) ids
  ok (id ∷ rest)

-- From the Margo instance on, up to the wait for its end; what the registration returns is not read.
unfoldable pub server_main :
    {M T : Type 0}
    → Margo M
    → UtHash T (Cache Heap)
    → (usable : ℕ → Option ℕ) (strdup : Bool) → Env
    → (self : Ptr) → M
    → Run (ReturnCode × Option (Provider Heap T) × M)
server_main margo hash usable strdup env self m =
    register margo hash usable strdup (dummy_backend env) self 42 (some args_init) m

module _ {T : Type 0} (hash : UtHash T (Cache Heap)) where
  -- The id of the new cache, the ids that are logged, and what the server has become. `uuid` is what
  -- the server generates, `out` and `listed_out` what its handlers find on the stack, and `array` what
  -- the uninitialised array of four ids holds.
  unfoldable pub admin_main :
      Mercury
      → Machine
      → (argc : ℕ) (array : List CacheId) → (uuid : CacheId) → CreateCacheOut
      → ListCachesOut
      → Provider Heap T
      → Heap
      → Run (Option (CacheId × List CacheId × Provider Heap T × Heap))
  unfolding print_ids
  admin_main wire m argc array uuid out listed_out p w =
      let (inited, admin) = admin_init m.memory m.registered_admin m.new_admin in
      if not (argc == 3)
      then ok none
      else if not m.lookup
      then ok none
      else if not (is_success inited)
      then ok none
      else (do
        (created, id, p', w') ← served_create hash true uuid out p w none (some "dummy") (some "{}")
        if not (is_success created) then ok none else (do
          (listed, count, ids) ← served_list hash wire true true listed_out p' none array 4
          if not (is_success listed) then ok none else (do
            logged ← print_ids count 0 ids
            new ← defined id
            if m.addr_free then ok (some (new, logged, p', w')) else ok none)))

  -- The sum, what cachercise_client_finalize warns of, and the server's memory. `id` is what uuid_parse
  -- makes of the third argument, of length `id_length`, `provider_id` what atoi makes of the second; `out` is what the server finds on the stack.
  unfoldable pub client_main :
      Machine
      → (argc id_length provider_id : ℕ) → CacheId
      → SumOut
      → Provider Heap T
      → Heap
      → Run (Option (ℤ × Option ℕ × Heap))
  client_main m argc id_length provider_id id out p w =
      let (inited, client) = client_init m.memory m.registered_client m.new_client in
      if not (argc == 4)
      then ok none
      else if not (id_length == 36)
      then ok none
      else if not m.lookup
      then ok none
      else if not (is_success inited)
      then ok none
      else (do
        c ← defined client
        let (created, h, c') = cache_handle_create m.handle_memory m.dup provider_id id c
        if not (is_success created) then ok none else (do
          handle ← defined (find_handle h c'.handles)
          w' ← Handlers.hello hash p w (some (record { cache_id = handle.cache_id }))
          if not (is_success (say_hello (λ input. output tt) handle)) then ok none else (do
            (summed, result, w'') ← served_sum hash p out handle (pos 45) (pos 23) w'
            if not (is_success summed) then ok none else (do
              sum ← defined result
              (released, c'') ← cache_handle_release h c'
              let (finalized, left) = client_finalize c''
              if not (is_success released)
                  then ok none
                  else if not (is_success finalized)
                  then ok none
                  else if m.addr_free
                  then ok (some (sum, left, w''))
                  else ok none))))
