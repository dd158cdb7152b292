-- ===== src/Dummy.antt =====
-- src/dummy/dummy-backend.c: the backend "dummy", which keeps a hoard for each cache.
--
-- The heap maps the addresses in use to the contexts and hoards that they hold. It has room for so
-- many more allocations; past that `calloc` returns NULL and `new` throws. A load or a store at an
-- address that holds nothing is undefined, NULL included. What json-c and Argobots do enters as
-- `Env`, and the calls whose result the code does not look at are recorded as events.
pub mod Memory
pub mod Ownership
pub mod Lifecycle
pub mod Io
pub mod Transfers
pub mod Fulfils
pub mod Fresh
pub mod Items
pub mod Threads
use cachercise.Base.{
  ℕ, ◌+◌, ◌-◌, ◌/◌, String, Option, none, some, List, [], ◌∷◌, ◌==◌, if◌then◌else◌,
}
use cachercise.Base.Int.{ℤ, ◌+ℤ◌, fits_int32}
use cachercise.Base.Run.{Run, ok, fault, undefined, uncaught, ◌>>=◌, defined}
use cachercise.Common.{ReturnCode, success, err_invalid_config, Ptr, null, write, sign_extend}
use cachercise.Backend.{BackendImpl}
use cachercise.Hoard
use Memory.{
  Env, Context, Heap, json_put, printed, mutex_create, mutex_lock, mutex_unlock, mutex_free, emit,
  calloc_context, context, set_context, free_context, hoard_init, hoard, set_hoard, hoard_finalize,
}

module _ (env : Env) where
  -- json_tokener_parse_ex of the string, or an empty object where there is none; `none` when the
  -- string does not parse.
  unfoldable pub parse_config : Option String → Option Ptr
  parse_config none = some env.new_object
  parse_config (some s) = if env.parse_ex s == null then none else some (env.parse_ex s)

  pub create_context : Ptr → Heap → Run (ReturnCode × Ptr × Heap)
  create_context config w = do
    let (p, w₁) = calloc_context w
    c ← context p w₁
    (h, w₂) ← hoard_init (set_context p (record c { config = config }) w₁)
    ok (
      success,
      p,
      emit (mutex_create (env.mutex_of p))
          (set_context p (record { config = config; h = h; hoard_mutex = env.mutex_of p }) w₂),
    )

  unfoldable pub create_cache : Option String → Heap → Run (ReturnCode × Ptr × Heap)
  unfolding parse_config create_context
  create_cache config_str w = elim (parse_config config_str) [
    | none ↦ ok (err_invalid_config, null, w)
    | some config ↦ create_context config w
  ]

  -- The new context has neither a hoard nor a mutex.
  pub open_context : Ptr → Heap → Run (ReturnCode × Ptr × Heap)
  open_context config w = do
    let (p, w₁) = calloc_context w
    c ← context p w₁
    ok (success, p, set_context p (record c { config = config }) w₁)

  unfoldable pub open_cache : Option String → Heap → Run (ReturnCode × Ptr × Heap)
  unfolding parse_config open_context
  open_cache config_str w = elim (parse_config config_str) [
    | none ↦ ok (err_invalid_config, null, w)
    | some config ↦ open_context config w
  ]

pub close_cache : Ptr → Heap → Run (ReturnCode × Heap)
close_cache p w = do
  c ← context p w
  w₁ ← hoard_finalize c.h (emit (json_put c.config) w)
  ok (success, free_context p w₁)

pub destroy_cache : Ptr → Heap → Run (ReturnCode × Heap)
destroy_cache p w = do
  c ← context p w
  w₁ ← hoard_finalize c.h (emit (json_put c.config) w)
  ok (success, free_context p (emit (mutex_free c.hoard_mutex) w₁))

unfoldable pub say_hello : Ptr → Heap → Run Heap
say_hello p w = ok (emit (printed "Hello World from Dummy cache\n") w)

-- A signed sum that overflows is undefined.
unfoldable pub compute_sum : Ptr → ℤ → ℤ → Heap → Run (ℤ × Heap)
compute_sum p x y w = if fits_int32 (x +ℤ y) then ok (x +ℤ y, w) else fault undefined

module _ (env : Env) where
  pub io_write : Context → (count offset : ℕ) → List ℕ → Heap → Run (ℕ × List ℕ × Heap)
  io_write c count offset scratch w = do
    h ← hoard c.h w
    (ret, h') ← Hoard.put env.vector_max h scratch (count / 8) offset
    ok (
      sign_extend ret,
      scratch,
      emit (mutex_unlock c.hoard_mutex) (set_hoard c.h h' (emit (mutex_lock c.hoard_mutex) w)),
    )

  pub io_read : Context → (count offset : ℕ) → List ℕ → Heap → Run (ℕ × List ℕ × Heap)
  io_read c count offset scratch w = do
    h ← hoard c.h w
    (ret, scratch') ← Hoard.get h scratch (count / 8) offset
    ok (sign_extend ret, scratch', w)

  pub io : Ptr → (count offset : ℕ) → List ℕ → (kind : ℕ) → Heap → Run (ℕ × List ℕ × Heap)
  unfolding io_write io_read
  io p count offset scratch kind w = do
    c ← context p w
    if kind == write then io_write c count offset scratch w else io_read c count offset scratch w

  unfoldable pub dummy_backend : BackendImpl Heap
  dummy_backend = record {
    name = "dummy";
    create_cache = create_cache env;
    open_cache = open_cache env;
    close_cache = close_cache;
    destroy_cache = destroy_cache;
    hello = say_hello;
    sum = compute_sum;
    io = io;
  }
