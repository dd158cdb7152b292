-- ===== src/Dummy/Memory.antt =====
-- The memory that src/dummy/dummy-backend.c works on: contexts, and the hoards that src/hoard.cc
-- allocates and deletes.
use cachercise.Base.{ℕ, ◌+◌, ◌-◌, String, Option, none, some, List, ◌∷◌, ◌==◌, if◌then◌else◌}
use cachercise.Base.Run.{Run, ok, fault, uncaught, ◌>>=◌, defined}
use cachercise.Common.{Ptr, null}
use cachercise.Hoard.{Hoard}
use cachercise.Hoard

-- What json-c, Argobots and the C++ library bring.
pub record Env : Type 0 where
  -- json_tokener_parse_ex; NULL when the text is no JSON
  pub parse_ex : String → Ptr
  -- json_object_new_object
  pub new_object : Ptr
  -- the handle that ABT_mutex_create makes for the context at an address
  pub mutex_of : Ptr → Ptr
  -- std::vector<int64_t>::max_size
  pub vector_max : ℕ

-- struct dummy_context
pub record Context : Type 0 where
  pub config : Ptr
  pub h : Ptr
  pub hoard_mutex : Ptr

pub data Event : Type 0 where
  json_put mutex_create mutex_lock mutex_unlock mutex_free : Ptr → Event
  printed : String → Event

pub record Heap : Type 0 where
  pub contexts : Ptr → Option Context
  pub hoards : Ptr → Option Hoard
  pub next : ℕ
  pub room : ℕ
  -- newest first
  pub events : List Event

unfoldable pub update : {A : Type 0} → (Ptr → Option A) → Ptr → Option A → Ptr → Option A
update m p v q = if q == p then v else m q

unfoldable pub emit : Event → Heap → Heap
emit e w = record w { events = e ∷ w.events }

unfoldable pub context : Ptr → Heap → Run Context
context p w = defined (w.contexts p)

unfoldable pub set_context : Ptr → Context → Heap → Heap
unfolding update
set_context p c w = record w { contexts = update w.contexts p (some c) }

-- calloc(1, sizeof(dummy_context))
unfoldable pub calloc_context : Heap → Ptr × Heap
unfolding update
calloc_context w = if w.room == 0 then (null, w) else (
  w.next,
  record w {
    contexts =
        update w.contexts w.next (some (record { config = null; h = null; hoard_mutex = null }));
    next = w.next + 1;
    room = w.room - 1;
  },
)

-- free(context)
unfoldable pub free_context : Ptr → Heap → Heap
unfolding update
free_context p w = record w { contexts = update w.contexts p none }

unfoldable pub hoard_init : Heap → Run (Ptr × Heap)
unfolding update
hoard_init w =
    if w.room == 0
    then fault uncaught
    else ok (
      w.next,
      record w {
        hoards = update w.hoards w.next (some Hoard.init);
        next = w.next + 1;
        room = w.room - 1;
      },
    )

unfoldable pub hoard : Ptr → Heap → Run Hoard
hoard h w = defined (w.hoards h)

unfoldable pub set_hoard : Ptr → Hoard → Heap → Heap
unfolding update
set_hoard h v w = record w { hoards = update w.hoards h (some v) }

-- `delete h`: nothing at NULL, and undefined at an address that holds no hoard.
unfoldable pub hoard_finalize : Ptr → Heap → Run Heap
unfolding update
hoard_finalize h w =
    if h == null
    then ok w
    else (do v ← defined (w.hoards h); ok (record w { hoards = update w.hoards h none }))
