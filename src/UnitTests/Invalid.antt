-- ===== src/UnitTests/Invalid.antt =====
-- test_invalid of tests/test-admin.c passes.
use cachercise.Base.{
  ◌≤◌, ◌≡◌, ◌≢◌, refl, ap, ◌∙◌, String, true, false, Option, none, some, ◌==◌, arith, inr,
}
use mathlib.Core.Path.{subst}
use cachercise.Base.Run.{ok, Yields, Returns-ok}
use cachercise.Common.{
  success, err_invalid_token, err_invalid_config, err_invalid_backend, err_invalid_cache, CacheId,
  Ptr, null, to_int,
}
use cachercise.Table.{UtHash}
use cachercise.Messages.{CreateCacheIn, CreateCacheOut, CloseCacheIn}
use cachercise.Dummy.Memory.{Env, Heap}
use cachercise.Dummy.Ownership.{live, IsHeap}
use cachercise.Dummy.Lifecycle.{created, created-New}
use cachercise.Dummy.{dummy_backend}
use cachercise.Dummy
use cachercise.Provider.{Cache, Provider, check_token, strcmp_eq, find_cache, add_cache}
use cachercise.Provider.Sound.{IsSound}
use cachercise.Provider.Safety.{create_cache-Keeps}
use cachercise.Provider.Backends.{first_named, find_backend_impl-first}
use cachercise.Provider.Creation.{Added, add_cache-Added}
use cachercise.Provider.Outcomes.{destroy_cache-Closed}
use cachercise.Provider.Undone.{Restored, closed-Restored}
use cachercise.Provider.Handlers
use cachercise.Client.Calls.{Answer, not_forwarded}
use cachercise.Admin.{Admin, admin_init, create_answer, create_cache, close_answer}
use cachercise.EndToEnd.Created.{served_create, create_cache-created, dummy_backend-create}
use cachercise.EndToEnd.Destroyed.{served_destroy}
use cachercise.UnitTests.{valid_token, wrong_token, backend_config, assert_int, test_invalid}

create_cache-refused :
    (env : Env) (text : String) (w : Heap)
    → env.parse_ex text ≡ null
    → Dummy.create_cache env (some text) w ≡ ok (err_invalid_config, null, w)
unfolding Dummy.create_cache Dummy.parse_config
create_cache-refused env text w e = rw (e, Dummy.create_cache) refl

module _ {T : Type 0} (hash : UtHash T (Cache Heap)) (env : Env) where
  -- The provider that the set-up registers, with the dummy backend, and with room for a cache and an id
  -- for it that is free.
  pub record Testable (uuid : CacheId) (p : Provider Heap T) (w : Heap) : Type 0 where
    pub sound : IsSound hash IsHeap live p w
    pub token : p.token ≡ valid_token
    pub dummy : first_named "dummy" p.backend_types ≡ some (dummy_backend env)
    pub blah : first_named "blah" p.backend_types ≡ none
    pub parses : env.parse_ex backend_config ≢ null
    pub refuses : env.parse_ex "{ashqw{" ≡ null
    pub room : 2 ≤ w.room
    pub unused : find_cache hash p uuid ≡ none
    pub zero_unused : find_cache hash p 0 ≡ none
    pub not_zero : (uuid == 0) ≡ false

  module _ (p : Provider Heap T) (w : Heap) (out : CreateCacheOut) (uuid : CacheId)
      (sound : IsSound hash IsHeap live p w) (token : p.token ≡ valid_token) where
    valid : check_token p valid_token ≡ ok true
    unfolding check_token strcmp_eq
    valid = rw (token, check_token) refl

    denies :
        (type config : Option String)
        → served_create hash true uuid out p w wrong_token type config
          ≡ ok (err_invalid_token, none, p, w)
    unfolding served_create create_answer Handlers.create_cache check_token strcmp_eq
    denies type config =
        let refused : check_token p wrong_token ≡ ok false = rw (token, check_token) refl in
        rw refused refl

    refuses_config :
        (text : String)
        → first_named "dummy" p.backend_types ≡ some (dummy_backend env)
        → env.parse_ex text ≡ null
        → served_create hash true uuid out p w valid_token (some "dummy") (some text)
          ≡ ok (err_invalid_config, none, p, w)
    unfolding served_create create_answer Handlers.create_cache Handlers.create_with Handlers.set_up
    refuses_config text d e =
        let looked_up = find_backend_impl-first p "dummy" sound.typed ∙ ap ok d in
        let backend_refuses =
          ap (λ f. f (some text) w) (dummy_backend-create env)
          ∙ create_cache-refused env text w e in
        rw (valid, looked_up, backend_refuses) refl

    refuses_backend :
        (name : String) (config : Option String)
        → first_named name p.backend_types ≡ none
        → served_create hash true uuid out p w valid_token (some name) config
          ≡ ok (err_invalid_backend, none, p, w)
    unfolding served_create create_answer Handlers.create_cache Handlers.create_with
    refuses_backend name config e =
        let looked_up = find_backend_impl-first p name sound.typed ∙ ap ok e in
        rw (valid, looked_up) refl

    refuses_destroy :
        (id : CacheId)
        → find_cache hash p id ≡ none
        → served_destroy hash p w valid_token id ≡ ok (err_invalid_cache, p, w)
    unfolding served_destroy close_answer Handlers.destroy_cache Handlers.destroy_found
    refuses_destroy id e = rw (valid, e) refl

  module _ (uuid : CacheId) (p : Provider Heap T) (w : Heap) (t : Testable uuid p w) where
    abbrev new : Cache Heap
    new = record { fn = dummy_backend env; ctx = w.next; id = uuid }

    abbrev grown : Provider Heap T
    grown = (add_cache hash p new).1

    abbrev used : Heap
    used = created env (env.parse_ex backend_config) w

    abbrev request : CreateCacheIn
    request = record { type = some "dummy"; config = some backend_config; token = valid_token }

    handler_creates :
        (out : CreateCacheOut)
        → Handlers.create_cache hash true uuid out p w (some request)
          ≡ ok (record { ret = success; id = uuid }, grown, used)
    unfolding Handlers.create_cache Handlers.create_with Handlers.set_up Handlers.install
    handler_creates out =
        let looked_up = find_backend_impl-first p "dummy" t.sound.typed ∙ ap ok t.dummy in
        let backend_creates =
          ap (λ f. f (some backend_config) w) (dummy_backend-create env)
          ∙ create_cache-created env backend_config w t.parses t.room in
        rw (valid p w out uuid t.sound t.token, looked_up, backend_creates) refl

    creates :
        (out : CreateCacheOut)
        → served_create hash true uuid out p w valid_token (some "dummy") (some backend_config)
          ≡ ok (success, some uuid, grown, used)
    unfolding served_create create_answer
    creates out = rw (handler_creates out) refl

    added : Added hash p new grown
    added = add_cache-Added hash p new t.unused

    grown-IsSound : (out : CreateCacheOut) → IsSound hash IsHeap live grown used
    grown-IsSound out =
        subst (Yields (λ (o, q, v). IsSound hash IsHeap live q v)) (handler_creates out)
          (create_cache-Keeps hash IsHeap live true uuid out p w t.sound (some request))

    destroys :
        (out : CreateCacheOut)
        → (q : Provider Heap T) × (v : Heap) × (served_destroy hash grown used valid_token uuid
            ≡ ok (success, q, v))
          × Restored hash IsHeap live p w q v
    unfolding served_destroy close_answer
    destroys out =
        let input : CloseCacheIn = record { token = valid_token; id = uuid } in
        let sound = grown-IsSound out in
        let accepted = valid grown used out uuid sound (added.same_token ∙ t.token) in
        let ((answer, q, v), run, (closed, succeeded)) =
          Returns-ok _ (Handlers.destroy_cache hash grown used (some input)) (
            destroy_cache-Closed hash IsHeap live grown used sound input
              (inr ("ABCDEFGH", refl))) in
        let n = (created-New env (env.parse_ex backend_config) w t.sound.heap).0 in
        (
          q,
          v,
          rw (run, succeeded _ accepted added.present) refl,
          closed-Restored hash IsHeap live p w grown used new t.unused added n.unused n.contexts
              valid_token answer q v accepted closed,
        )

    -- On a sound server with the token of the tests and the dummy backend, and no backend "blah", where
    -- the test's configuration parses and "{ashqw{" does not, with room for a cache and an id for it that is
    -- free and not 0, no cache under the id 0, and nobody under the next provider id, so that a request to it
    -- is not forwarded, test_invalid of tests/test-admin.c passes if the admin
    -- can be allocated: every call answers the code that the test expects. It leaves the server sound, with
    -- the caches and the contexts that it had.
    pub test_invalid-passes :
        (elsewhere : CreateCacheIn → Answer CreateCacheOut) (memory : Ptr)
        (registered : Option Admin) (new_admin : Admin) (unlucky : CacheId) (out : CreateCacheOut)
        → ((input : CreateCacheIn) → elsewhere input ≡ not_forwarded)
        → memory ≢ null
        → (q : Provider Heap T) × (v : Heap) × (test_invalid hash elsewhere memory registered
              new_admin uuid unlucky out p w
            ≡ ok (some (q, v)))
          × Restored hash IsHeap live p w q v
    unfolding test_invalid assert_int to_int admin_init create_cache create_answer
    test_invalid-passes elsewhere memory registered new_admin unlucky out astray n =
        let there : (memory == null) ≡ false = ground arith in
        let (q, v, destroyed, restored) = destroys out in
        let absent : find_cache hash grown 0 ≡ none = added.others 0 t.not_zero ∙ t.zero_unused in
        let kept = added.same_token ∙ t.token in
        (
          q,
          v,
          rw
              (
                there,
                astray (record {
                  type = some "dummy";
                  config = some backend_config;
                  token = valid_token;
                }),
                denies p w out unlucky t.sound t.token (some "dummy") (some backend_config),
                refuses_config p w out unlucky t.sound t.token "{ashqw{" t.dummy t.refuses,
                refuses_backend p w out unlucky t.sound t.token "blah" (some backend_config) t.blah,
                creates out,
                refuses_destroy grown used out uuid (grown-IsSound out) kept 0 absent,
                destroyed,
              )
              refl,
          restored,
        )
