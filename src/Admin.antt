-- ===== src/Admin.antt =====
-- src/admin.h and src/admin.c: the calls of an administrator. As in Client/Calls.antt, a request goes
-- through Margo by a `transport`.
use cachercise.Base.{ℕ, String, Option, none, some, List, [], ◌==◌, if◌then◌else◌}
use cachercise.Base.Run.{Run, ok, ◌>>=◌}
use cachercise.Common.{
  ReturnCode, success, err_allocation, err_from_mercury, is_success, CacheId, Ptr, null,
}
use cachercise.Messages.{
  CreateCacheIn, CreateCacheOut, CloseCacheIn, CloseCacheOut, ListCachesIn, ListCachesOut,
}
use cachercise.Client.Bytes.{memcpy}
use cachercise.Client.Calls.{Answer, no_handle, not_forwarded, no_output, output}

-- struct cachercise_admin: the ids of the five RPCs
pub record Admin : Type 0 where
  pub create_cache_id : ℕ
  pub open_cache_id : ℕ
  pub close_cache_id : ℕ
  pub destroy_cache_id : ℕ
  pub list_caches_id : ℕ

-- cachercise_admin_init: the ids are those registered with the Margo instance, or newly registered.
unfoldable pub admin_init :
    (memory : Ptr) (registered : Option Admin) (new : Admin) → ReturnCode × Option Admin
admin_init memory registered new =
    if memory == null
    then (err_allocation, none)
    else (success, some (elim registered [ none ↦ new | some a ↦ a ]))

-- The id comes back where `*id` is written.
unfoldable pub create_answer : Answer CreateCacheOut → ReturnCode × Option CacheId
create_answer no_handle = (err_from_mercury, none)
create_answer not_forwarded = (err_from_mercury, none)
create_answer no_output = (err_from_mercury, none)
create_answer (output out) = if is_success out.ret then (success, some out.id) else (out.ret, none)

unfoldable pub create_cache :
    (CreateCacheIn → Answer CreateCacheOut)
    → (token type config : Option String) → ReturnCode × Option CacheId
unfolding create_answer
create_cache transport token type config =
    create_answer (transport (record { type = type; config = config; token = token }))

unfoldable pub open_cache :
    (CreateCacheIn → Answer CreateCacheOut)
    → (token type config : Option String) → ReturnCode × Option CacheId
unfolding create_answer
open_cache transport token type config =
    create_answer (transport (record { type = type; config = config; token = token }))

unfoldable pub close_answer : Answer CloseCacheOut → ReturnCode
close_answer no_handle = err_from_mercury
close_answer not_forwarded = err_from_mercury
close_answer no_output = err_from_mercury
close_answer (output out) = out.ret

unfoldable pub close_cache :
    (CloseCacheIn → Answer CloseCacheOut) → (token : Option String) → CacheId → ReturnCode
unfolding close_answer
close_cache transport token id = close_answer (transport (record { token = token; id = id }))

unfoldable pub destroy_cache :
    (CloseCacheIn → Answer CloseCacheOut) → (token : Option String) → CacheId → ReturnCode
unfolding close_answer
destroy_cache transport token id = close_answer (transport (record { token = token; id = id }))

-- The array of an output, which is NULL or holds the ids that were decoded.
abbrev pub id_array : Option (List CacheId) → List CacheId
id_array none = []
id_array (some xs) = xs

-- What comes back is the code, and the caller's `*count` and array.
unfoldable pub list_answer :
    (ids : List CacheId) (count : ℕ) → Answer ListCachesOut → Run (ReturnCode × ℕ × List CacheId)
list_answer ids count no_handle = ok (err_from_mercury, count, ids)
list_answer ids count not_forwarded = ok (err_from_mercury, count, ids)
list_answer ids count no_output = ok (err_from_mercury, count, ids)
list_answer ids count (output out) =
    if is_success out.ret
    then (do ids' ← memcpy ids (id_array out.ids) out.count; ok (out.ret, out.count, ids'))
    else ok (out.ret, count, ids)

unfoldable pub list_caches :
    (ListCachesIn → Answer ListCachesOut)
    → (token : Option String) → (ids : List CacheId) → (count : ℕ)
    → Run (ReturnCode × ℕ × List CacheId)
unfolding list_answer
list_caches transport token ids count =
    list_answer ids count (transport (record { token = token; max_ids = count }))
