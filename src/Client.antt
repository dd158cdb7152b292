-- ===== src/Client.antt =====
-- src/client.h and src/client.c: a client, its cache handles, and the calls that it makes.
--
-- A client is kept with the handles that it has created, by their addresses. What Margo does is a
-- parameter: whether an address can be duplicated, and how a request is answered.
pub mod Handles
pub mod Freeing
pub mod Lifetime
pub mod Bytes
pub mod Calls
use cachercise.Base.{
  ℕ, ◌+◌, ◌-◌, ◌%◌, ◌^◌, Bool, true, false, Option, none, some, List, [], ◌∷◌, ◌==◌, if◌then◌else◌,
}
use cachercise.Base.Run.{Run, ok, fault, ◌>>=◌, defined}
use cachercise.Common.{
  ReturnCode, success, err_invalid_args, err_allocation, err_from_mercury, CacheId, Ptr, null, u64,
}

-- struct cachercise_cache_handle, less the pointer to its client
pub record Handle : Type 0 where
  pub addr : ℕ
  pub provider_id : ℕ
  pub refcount : ℕ
  pub cache_id : CacheId

-- struct cachercise_client, and the handles that are allocated for it
pub record Client : Type 0 where
  pub hello_id : ℕ
  pub sum_id : ℕ
  pub io_id : ℕ
  pub num_cache_handles : ℕ
  pub handles : List (Ptr × Handle)
  -- the addresses given back by margo_addr_free, newest first
  pub freed_addrs : List ℕ

unfoldable pub find_handle : Ptr → List (Ptr × Handle) → Option Handle
find_handle h [] = none
find_handle h ((q, v) ∷ hs) = if q == h then some v else find_handle h hs

unfoldable pub set_handle : Ptr → Handle → List (Ptr × Handle) → List (Ptr × Handle)
set_handle h v [] = []
set_handle h v ((q, u) ∷ hs) = if q == h then (q, v) ∷ hs else (q, u) ∷ set_handle h v hs

unfoldable pub free_handle : Ptr → List (Ptr × Handle) → List (Ptr × Handle)
free_handle h [] = []
free_handle h ((q, u) ∷ hs) = if q == h then hs else (q, u) ∷ free_handle h hs

-- cachercise_client_init: `memory` is what `calloc` gives. The RPC ids are those that are registered
-- with the Margo instance, or else newly registered.
unfoldable pub client_init :
    (memory : Ptr) (registered : Option (ℕ × ℕ × ℕ)) (new : ℕ × ℕ × ℕ) → ReturnCode × Option Client
client_init memory registered new =
    if memory == null
    then (err_allocation, none)
    else let (sum, hello, io) : ℕ × ℕ × ℕ = elim registered [ none ↦ new | some ids ↦ ids ] in
      (
        success,
        some (record {
          hello_id = hello;
          sum_id = sum;
          io_id = io;
          num_cache_handles = 0;
          handles = [];
          freed_addrs = [];
        }),
      )

-- cachercise_cache_handle_create, for a client that is not NULL: `memory` is what `calloc` gives, an
-- address that is not in use or NULL, and `dup` what margo_addr_dup makes of the address.
unfoldable pub cache_handle_create :
    (memory : Ptr) (dup : Option ℕ) (provider_id : ℕ) (cache_id : CacheId)
    → Client
    → ReturnCode × Ptr × Client
cache_handle_create memory dup provider_id cache_id c =
    if memory == null then (err_allocation, null, c) else elim dup [
      | none ↦ (err_from_mercury, null, c)
      | some addr ↦ (
        success,
        memory,
        record c {
          num_cache_handles = u64 (c.num_cache_handles + 1);
          handles =
              (
                memory,
                record {
                  addr = addr;
                  provider_id = provider_id;
                  refcount = 1;
                  cache_id = cache_id;
                },
              )
              ∷ c.handles;
        },
      )
    ]

unfoldable pub cache_handle_ref_incr : Ptr → Client → Run (ReturnCode × Client)
unfolding find_handle set_handle
cache_handle_ref_incr h c = if h == null then ok (err_invalid_args, c) else (do
  v ← defined (find_handle h c.handles)
  ok (
    success,
    record c { handles = set_handle h (record v { refcount = u64 (v.refcount + 1) }) c.handles },
  ))

unfoldable pub cache_handle_release : Ptr → Client → Run (ReturnCode × Client)
unfolding find_handle set_handle free_handle
cache_handle_release h c = if h == null then ok (err_invalid_args, c) else (do
  v ← defined (find_handle h c.handles)
  let count = u64 (v.refcount + 2 ^ 64 - 1)
  if count == 0
      then ok (
        success,
        record c {
          num_cache_handles = u64 (c.num_cache_handles + 2 ^ 64 - 1);
          handles = free_handle h c.handles;
          freed_addrs = v.addr ∷ c.freed_addrs;
        },
      )
      else ok
          (success, record c { handles = set_handle h (record v { refcount = count }) c.handles }))

-- cachercise_client_finalize: the number of handles that it warns of, if there are any.
unfoldable pub client_finalize : Client → ReturnCode × Option ℕ
client_finalize c = (success, if c.num_cache_handles == 0 then none else some c.num_cache_handles)
