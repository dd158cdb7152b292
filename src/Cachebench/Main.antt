-- ===== src/Cachebench/Main.antt =====
-- main of examples/cachebench.c: the calls of Margo, SSG and cachercise, the loops, the gotos and the
-- cleanup behind their labels. What the parties that are called answer is a parameter. Times, and the
-- reductions and the report of them, are left out.
pub mod Cleanup
use cachercise.Base.{
  ℕ, ◌-◌, ◌^◌, String, Bool, true, false, not, Option, none, some, [], ◌==◌, if◌then◌else◌,
}
use cachercise.Base.Run.{Run, ok, fault, undefined, ◌>>=◌, defined}
use cachercise.Common.{CacheId, Ptr, is_success}
use cachercise.Messages.{CreateCacheIn, CreateCacheOut}
use cachercise.Client.{
  Client, Handle, find_handle, client_init, cache_handle_create, cache_handle_release,
  client_finalize,
}
use cachercise.Client.Calls.{Answer}
use cachercise.Admin.{Admin, admin_init, create_cache}
use cachercise.Cachebench.Config.{Options, Value, Json, Files, dump_json}
use cachercise.Cachebench.Rounds.{Rounds, rounds}

-- What the calls of main are answered. Margo's instance is there or NULL; SSG's codes and Mercury's
-- are 0 for success; margo_get_config gives a text or NULL; `memory` is what `calloc` gives.
pub record Answers : Type 0 where
  pub margo_init : Bool
  pub ssg_init : ℕ
  pub group_load : ℕ
  pub group_refresh : ℕ
  pub member_id : ℕ
  pub member_addr : ℕ
  pub lookup : ℕ
  pub admin_memory : Ptr
  pub client_memory : Ptr
  pub handle_memory : Ptr
  pub registered_admin : Option Admin
  pub new_admin : Admin
  pub registered_client : Option (ℕ × ℕ × ℕ)
  pub new_client : ℕ × ℕ × ℕ
  pub transport : CreateCacheIn → Answer CreateCacheOut
  pub broadcast : CacheId  -- on the other ranks, the id from rank 0
  pub dup : Option ℕ
  pub nprocs : ℕ
  pub get_int : Option Value → ℕ  -- json_object_get_int, or 0 where that is negative
  pub rounds : Rounds
  pub margo_config : Option String

-- What main has to give back; `addr_str` and `addr` say of svr_addr_str and svr_addr that they are set.
pub record Held : Type 0 where
  pub config : Bool
  pub margo : Bool
  pub ssg : Bool
  pub addr_str : Bool
  pub addr : Bool

-- FATAL and exit end the process; `aborted` is for MPI_Abort in place of MPI_Finalize.
pub data End : Type 0 where
  exited : End
  returned : (ret : ℕ) (aborted : Bool) (held : Held) → End

-- Giving back what is not held is undefined.
unfoldable pub json_object_put : Held → Run Held
json_object_put h = if h.config then ok (record h { config = false }) else fault undefined

unfoldable pub addr_free : Held → Run Held
addr_free h =
    if h.margo
    then if h.addr then ok (record h { addr = false }) else fault undefined
    else fault undefined

unfoldable pub margo_finalize : Held → Run Held
margo_finalize h = if h.margo then ok (record h { margo = false }) else fault undefined

unfoldable pub ssg_finalize : Held → Run Held
ssg_finalize h = if h.ssg then ok (record h { ssg = false }) else fault undefined

unfoldable pub err_mpi_cleanup : (ret : ℕ) → Held → Run End
unfolding json_object_put
err_mpi_cleanup ret h = do
  h' ← if h.config then json_object_put h else ok h
  ok (returned ret (not (ret == 0)) h')

unfoldable pub err_margo_cleanup : (ret : ℕ) → Held → Run End
unfolding addr_free margo_finalize err_mpi_cleanup
err_margo_cleanup ret h = do
  h' ← if h.addr then addr_free h else ok h
  h'' ← margo_finalize h'
  err_mpi_cleanup ret h''

unfoldable pub err_ssg_cleanup : (ret : ℕ) → Held → Run End
unfolding ssg_finalize err_margo_cleanup
err_ssg_cleanup ret h = do
  h' ← ssg_finalize (if h.addr_str then record h { addr_str = false } else h)
  err_margo_cleanup ret h'

-- Rank 0 creates the cache and broadcasts its id; `none` where FATAL ends the process.
unfoldable pub cache_of : Answers → (rank : ℕ) → Option CacheId
unfolding create_cache
cache_of a rank =
    if rank == 0
    then (let (ret, id) = create_cache a.transport none (some "dummy") (some "{}") in
        if is_success ret then id else none)
    else some a.broadcast

-- Releasing the handle, and finalizing the client and the admin; the last returns CACHERCISE_SUCCESS
-- always.
unfoldable pub leave : Ptr → Client → Run (Option (Option ℕ))
unfolding cache_handle_release client_finalize
leave h c = do
  (released, c') ← cache_handle_release h c
  let (finalized, left) = client_finalize c'
  if is_success released then if is_success finalized then ok (some left) else ok none else ok none

-- The loops, and dump_json, whose outcome main does not look at.
unfoldable pub benchmarked :
    {O : Type 0} → Json O → Files O → Answers → (rank : ℕ) → Handle → (config : O) → Run (Option O)
unfolding rounds dump_json
benchmarked js files a rank handle config = do
  nerrors ← rounds a.rounds handle a.nprocs rank (a.get_int (js.get "items_per_process" config))
  if rank == 0
      then (do text ← defined a.margo_config; ok (dump_json js files text config))
      else ok none

-- From cachercise_admin_init to cachercise_admin_finalize: what client_finalize says of handles that
-- are left, or `none` where FATAL ends the process.
unfoldable pub session :
    {O : Type 0} → Json O → Files O → Answers → (rank : ℕ) → (config : O) → Run (Option (Option ℕ))
unfolding cache_of client_init admin_init cache_handle_create leave benchmarked
session js files a rank config =
    let (inited, admin) = admin_init a.admin_memory a.registered_admin a.new_admin in
    if is_success inited
    then elim (cache_of a rank) [
      | none ↦ ok none
      | some id ↦ (do
        let (inited_client, client) = client_init a.client_memory a.registered_client a.new_client
        if is_success inited_client
            then (do
              c ← defined client
              let (created, h, c') = cache_handle_create a.handle_memory a.dup 1 id c
              if is_success created
                  then (do
                    handle ← defined (find_handle h c'.handles)
                    shown ← benchmarked js files a rank handle config
                    leave h c')
                  else ok none)
            else ok none)
    ]
    else ok none

-- main, from what parse_args gives.
unfoldable pub main :
    {O : Type 0}
    → Json O
    → Files O
    → Answers
    → (rank : ℕ) → Run (Option (Options × Option O))
    → Run End
unfolding session err_mpi_cleanup err_margo_cleanup err_ssg_cleanup
main js files a rank parse_args = do
  parsed ← parse_args
  elim parsed [
    | none ↦ ok exited
    | some (opts, json_cfg) ↦ (do
      config ← defined json_cfg
      let h : Held = record {
        config = true;
        margo = false;
        ssg = false;
        addr_str = false;
        addr = false;
      }
      let with_margo : Held = record h { margo = true }
      let with_ssg : Held = record with_margo { ssg = true }
      let with_str : Held = record with_ssg { addr_str = true }
      if not a.margo_init
          then err_mpi_cleanup (2 ^ 32 - 1) h
          else if not (a.ssg_init == 0)
          then err_margo_cleanup a.ssg_init with_margo
          else if not (a.group_load == 0)
          then err_ssg_cleanup a.group_load with_ssg
          else if not (a.group_refresh == 0)
          then err_ssg_cleanup a.group_refresh with_ssg
          else if not (a.member_id == 0)
          then err_ssg_cleanup a.member_id with_ssg
          else if not (a.member_addr == 0)
          then err_ssg_cleanup a.member_addr with_ssg
          else if not (a.lookup == 0)
          then err_ssg_cleanup a.lookup with_str
          else (do
            finished ← session js files a rank config
            elim finished [
              | none ↦ ok exited
              | some left ↦ err_ssg_cleanup 0 (record with_str { addr = true })
            ]))
  ]
