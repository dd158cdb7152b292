-- ===== src/EndToEnd/Created.antt =====
-- cachercise_create_cache of src/admin.c, with the arguments that the examples give, against
-- the handler of src/provider.c and the dummy backend.
use cachercise.Base.{
  ◌+◌, ◌<◌, ◌≤◌, ◌^◌, ◌≡◌, ◌≢◌, refl, ap, ◌∙◌, String, Bool, true, false, Option, none, some, [],
  ◌∷◌, ◌==◌, arith, length, ◌++◌,
}
use mathlib.Core.Path.{subst}
use cachercise.Base.Run.{Run, ok, Yields, ◌>>=◌}
use cachercise.Common.{ReturnCode, success, CacheId, null}
use cachercise.Table.{UtHash}
use cachercise.Messages.{CreateCacheOut}
use cachercise.Dummy.Memory.{Env, Heap}
use cachercise.Dummy.Ownership.{live, IsHeap}
use cachercise.Dummy.Lifecycle.{created, created_context, created-New, create_context-created}
use cachercise.Dummy.{dummy_backend}
use cachercise.Dummy
use cachercise.Hoard
use cachercise.Provider.{Cache, Provider, check_token, find_cache, add_cache}
use cachercise.Provider.Creation.{Added, add_cache-Added}
use cachercise.Provider.Safety.{create_cache-Keeps}
use cachercise.Provider.Sound.{IsSound}
use cachercise.Provider.Backends.{first_named, find_backend_impl-first}
use cachercise.Provider.Handlers
use cachercise.Client.Calls.{output}
use cachercise.Admin.{create_answer}

module _ {W T : Type 0} (hash : UtHash T (Cache W)) where
  -- cachercise_create_cache over a transport that delivers: the handler answers, with `out` on its
  -- stack and `uuid` as the new id, and the admin reads the answer.
  unfoldable pub served_create :
      (memory : Bool) (uuid : CacheId) (out : CreateCacheOut)
      → Provider W T
      → W
      → (token type config : Option String) → Run (ReturnCode × Option CacheId × Provider W T × W)
  served_create memory uuid out p w token type config = do
    (answer, p', w') ←
        Handlers.create_cache hash memory uuid out p w
          (some (record { type = type; config = config; token = token }))
    let (ret, id) = create_answer (output answer)
    ok (ret, id, p', w')

pub dummy_backend-create : (env : Env) → (dummy_backend env).create_cache ≡ Dummy.create_cache env
unfolding dummy_backend
dummy_backend-create env = refl

-- The dummy backend creates a cache, where there is room and the configuration parses.
pub create_cache-created :
    (env : Env) (text : String) (w : Heap)
    → env.parse_ex text ≢ null
    → 2 ≤ w.room
    → Dummy.create_cache env (some text) w ≡ ok (success, w.next, created env (env.parse_ex text) w)
unfolding Dummy.create_cache Dummy.parse_config
create_cache-created env text w n r =
    let there : (env.parse_ex text == null) ≡ false = ground arith in
    rw (there, Dummy.create_cache) (create_context-created env (env.parse_ex text) w r)

module _ {T : Type 0} (hash : UtHash T (Cache Heap)) (env : Env) where
  add_cache-items :
      (p : Provider Heap T) (r : Cache Heap)
      → find_cache hash p r.id ≡ none
      → hash.items (add_cache hash p r).1.caches ≡ hash.items p.caches ++ (r.id, r) ∷ []
  unfolding add_cache find_cache
  add_cache-items p r e = rw (e, add_cache) (hash.items-add r.id r p.caches e)

  -- A sound server without a token, with the dummy backend under its name, with room for a cache and
  -- with an id for it that is not taken.
  pub record Serves (uuid : CacheId) (p : Provider Heap T) (w : Heap) : Type 0 where
    pub sound : IsSound hash IsHeap live p w
    pub open_to_all : p.token ≡ none
    pub dummy : first_named "dummy" p.backend_types ≡ some (dummy_backend env)
    pub parses : env.parse_ex "{}" ≢ null
    pub room : 2 ≤ w.room
    pub unused : find_cache hash p uuid ≡ none
    pub few : length (hash.items p.caches) + 1 < 2 ^ 32

  abbrev pub new_cache : CacheId → Heap → Cache Heap
  new_cache uuid w = record { fn = dummy_backend env; ctx = w.next; id = uuid }

  module _ (uuid : CacheId) (p : Provider Heap T) (w : Heap) (s : Serves uuid p w) where
    abbrev pub larger : Provider Heap T
    larger = (add_cache hash p (new_cache uuid w)).1

    abbrev pub after : Heap
    after = created env (env.parse_ex "{}") w

    pub no_token : (q : Provider Heap T) → q.token ≡ none → check_token q none ≡ ok true
    unfolding check_token
    no_token q e = rw (e, check_token) refl

    handler_creates :
        (out : CreateCacheOut)
        → Handlers.create_cache hash true uuid out p w
            (some (record { type = some "dummy"; config = some "{}"; token = none }))
          ≡ ok (record { ret = success; id = uuid }, larger, after)
    unfolding Handlers.create_cache Handlers.create_with Handlers.set_up Handlers.install
    handler_creates out =
        let looked_up = find_backend_impl-first p "dummy" s.sound.typed ∙ ap ok s.dummy in
        let backend_creates =
          ap (λ f. f (some "{}") w) (dummy_backend-create env)
          ∙ create_cache-created env "{}" w s.parses s.room in
        rw (no_token p s.open_to_all, looked_up, backend_creates) refl

    -- A server that serves creates a cache.
    pub served_create-creates :
        (out : CreateCacheOut)
        → served_create hash true uuid out p w none (some "dummy") (some "{}")
          ≡ ok (success, some uuid, larger, after)
    unfolding served_create create_answer
    served_create-creates out = rw (handler_creates out) refl

    abbrev any_out : CreateCacheOut
    any_out = record { ret = success; id = 0 }

    pub larger-IsSound : IsSound hash IsHeap live larger after
    larger-IsSound =
        subst (Yields (λ (o, q, v). IsSound hash IsHeap live q v)) (handler_creates any_out) (
          create_cache-Keeps hash IsHeap live true uuid any_out p w s.sound
            (some (record { type = some "dummy"; config = some "{}"; token = none })))

    pub larger-Added : Added hash p (new_cache uuid w) larger
    larger-Added = add_cache-Added hash p (new_cache uuid w) s.unused

    pub larger-items :
        hash.items larger.caches ≡ hash.items p.caches ++ (uuid, new_cache uuid w) ∷ []
    larger-items = add_cache-items p (new_cache uuid w) s.unused

    -- The handle's cache, on the server after the creation: it is found, and its hoard is empty.
    pub after-in_use :
        (after.contexts w.next ≡ some (created_context env w (env.parse_ex "{}")))
        × (after.hoards (w.next + 1) ≡ some Hoard.init)
    after-in_use =
        let (new, empty) = created-New env (env.parse_ex "{}") w s.sound.heap in (new.value, empty)
