-- ===== src/EndToEnd/Opened.antt =====
-- cachercise_open_cache and cachercise_close_cache of src/admin.c against the handlers of
-- src/provider.c and the dummy backend, and a client's io in between.
use cachercise.Base.{
  ◌<◌, ◌≡◌, ◌≢◌, refl, ap, ◌∙◌, String, Bool, true, false, Option, none, some, [], ◌∷◌, ◌==◌, arith,
  List, ℕ, inl,
}
use mathlib.Core.Path.{subst}
use cachercise.Base.Run.{Run, ok, fault, undefined, Yields, Returns-ok, ◌>>=◌}
use cachercise.Common.{ReturnCode, success, CacheId, null, to_int32}
use cachercise.Table.{UtHash}
use cachercise.Messages.{CreateCacheOut, CloseCacheIn, IoOut}
use cachercise.Dummy.Memory.{Env, Heap}
use cachercise.Dummy.Ownership.{live, IsHeap}
use cachercise.Dummy.Lifecycle.{opened, opened-New, open_context-opened}
use cachercise.Dummy.Io.{io-no_hoard}
use cachercise.Dummy.{dummy_backend}
use cachercise.Dummy
use cachercise.Provider.{Cache, Provider, find_cache}
use cachercise.Provider.Safety.{open_cache-Keeps}
use cachercise.Provider.Sound.{IsSound}
use cachercise.Provider.Backends.{find_backend_impl-first}
use cachercise.Provider.Outcomes.{close_cache-Closed}
use cachercise.Provider.Handlers
use cachercise.Client.{Handle}
use cachercise.Client.Calls.{output, scratch_in, io_input}
use cachercise.Admin.{create_answer, close_answer}
use cachercise.EndToEnd.{served_io, dummy_backend-io}
use cachercise.EndToEnd.Created.{Serves, new_cache, larger, no_token, larger-Added}
use cachercise.EndToEnd.Destroyed.{ended}
use cachercise.Provider.Undone.{Restored}

module _ {W T : Type 0} (hash : UtHash T (Cache W)) where
  -- cachercise_open_cache over a transport that delivers.
  unfoldable pub served_open :
      (memory : Bool) (uuid : CacheId) (out : CreateCacheOut)
      → Provider W T
      → W
      → (token type config : Option String) → Run (ReturnCode × Option CacheId × Provider W T × W)
  served_open memory uuid out p w token type config = do
    (answer, p', w') ←
        Handlers.open_cache hash memory uuid out p w
          (some (record { type = type; config = config; token = token }))
    let (ret, id) = create_answer (output answer)
    ok (ret, id, p', w')

  -- cachercise_close_cache
  unfoldable pub served_close :
      Provider W T → W → (token : Option String) → CacheId → Run (ReturnCode × Provider W T × W)
  served_close p w token id = do
    (answer, p', w') ← Handlers.close_cache hash p w (some (record { token = token; id = id }))
    ok (close_answer (output answer), p', w')

dummy_backend-open : (env : Env) → (dummy_backend env).open_cache ≡ Dummy.open_cache env
unfolding dummy_backend
dummy_backend-open env = refl

-- The dummy backend opens a cache, where there is room.
open_cache-opened :
    (env : Env) (w : Heap)
    → env.parse_ex "{}" ≢ null
    → 0 < w.room
    → Dummy.open_cache env (some "{}") w ≡ ok (success, w.next, opened (env.parse_ex "{}") w)
unfolding Dummy.open_cache Dummy.parse_config
open_cache-opened env w n r =
    let there : (env.parse_ex "{}" == null) ≡ false = ground arith in
    rw (there, Dummy.open_cache) (open_context-opened env (env.parse_ex "{}") w r)

module _ {T : Type 0} (hash : UtHash T (Cache Heap)) (env : Env) (uuid : CacheId)
    (p : Provider Heap T) (w : Heap) (s : Serves hash env uuid p w) where
  abbrev grown : Provider Heap T
  grown = larger hash env uuid p w s

  abbrev used : Heap
  used = opened (env.parse_ex "{}") w

  handler_opens :
      (out : CreateCacheOut)
      → Handlers.open_cache hash true uuid out p w
          (some (record { type = some "dummy"; config = some "{}"; token = none }))
        ≡ ok (record { ret = success; id = uuid }, grown, used)
  unfolding Handlers.open_cache Handlers.open_with Handlers.set_up Handlers.install
  handler_opens out =
      let looked_up = find_backend_impl-first p "dummy" s.sound.typed ∙ ap ok s.dummy in
      let backend_opens =
        ap (λ f. f (some "{}") w) (dummy_backend-open env)
        ∙ open_cache-opened env w s.parses (omega (arith, s.room)) in
      rw (no_token hash env uuid p w s p s.open_to_all, looked_up, backend_opens) refl

  served_open-opens :
      (out : CreateCacheOut)
      → served_open hash true uuid out p w none (some "dummy") (some "{}")
        ≡ ok (success, some uuid, grown, used)
  unfolding served_open create_answer
  served_open-opens out = rw (handler_opens out) refl

  used-IsSound : IsSound hash IsHeap live grown used
  used-IsSound =
      let out : CreateCacheOut = record { ret = success; id = 0 } in
      subst (Yields (λ (o, q, v). IsSound hash IsHeap live q v)) (handler_opens out) (
        open_cache-Keeps hash IsHeap live true uuid out p w s.sound
          (some (record { type = some "dummy"; config = some "{}"; token = none })))

  no_hoard :
      (count offset kind : ℕ) (scratch : List ℕ)
      → Dummy.io env w.next count offset scratch kind used ≡ fault undefined
  no_hoard count offset kind scratch =
      let n = opened-New (env.parse_ex "{}") w s.sound.heap in
      io-no_hoard env w.next _ used n.value count offset kind scratch n.heap.null_hoard

  transfer-undefined :
      (out : IoOut) (stack scratch : ℕ) (handle : Handle) (buf : List ℕ) (count offset kind : ℕ)
      → handle.cache_id ≡ uuid
      → scratch_in stack buf count kind ≡ ok scratch
      → served_io hash grown out stack handle buf count offset kind used ≡ fault undefined
  unfolding served_io Handlers.io Handlers.io_found
  transfer-undefined out stack scratch handle buf count offset kind h c =
      let found : find_cache hash grown handle.cache_id ≡ some (new_cache hash env uuid w) =
        ap (find_cache hash grown) h ∙ (larger-Added hash env uuid p w s).present in
      let input = io_input handle count offset kind scratch in
      let broken : (dummy_backend env).io w.next count offset (scratch ∷ []) (to_int32 input.kind)
            used
          ≡ fault undefined =
        ap (λ f. f w.next count offset (scratch ∷ []) (to_int32 input.kind) used)
          (dummy_backend-io env)
        ∙ no_hoard count offset (to_int32 input.kind) (scratch ∷ []) in
      rw (c, found, broken) refl

  -- A cache that is opened can be closed, and cannot be used. On a sound server without a token that has the
  -- dummy backend, with room for a cache and a fresh id for it, cachercise_open_cache succeeds. After it a
  -- client's cachercise_io of the cache, whatever its arguments, is undefined once the request has been
  -- filled in; and cachercise_close_cache of the cache ends: then the server is sound, every id finds what
  -- it did before the opening, and the contexts in use are those of before.
  pub served_open-close :
      (out : CreateCacheOut)
      → (p' q : Provider Heap T) × (w' v : Heap) × (ret : ReturnCode) × (served_open hash true uuid
            out p w none
            (some "dummy")
            (some "{}")
          ≡ ok (success, some uuid, p', w'))
        × ((answer : IoOut) (stack scratch : ℕ) (handle : Handle) (buf : List ℕ)
              (count offset kind : ℕ)
            → handle.cache_id ≡ uuid
            → scratch_in stack buf count kind ≡ ok scratch
            → served_io hash p' answer stack handle buf count offset kind w' ≡ fault undefined)
        × (served_close hash p' w' none uuid ≡ ok (ret, q, v))
        × Restored hash IsHeap live p w q v
  unfolding served_close close_answer
  served_open-close out =
      let input : CloseCacheIn = record { token = none; id = uuid } in
      let open_still = (larger-Added hash env uuid p w s).same_token ∙ s.open_to_all in
      let ((answer, q, v), run, closed) =
        Returns-ok _ (Handlers.close_cache hash grown used (some input))
          (close_cache-Closed hash IsHeap live grown used used-IsSound input (inl open_still)) in
      (
        grown,
        q,
        used,
        v,
        answer.ret,
        served_open-opens out,
        transfer-undefined,
        rw run refl,
        ended hash env uuid p w s used answer q v
            (opened-New (env.parse_ex "{}") w s.sound.heap).contexts closed,
      )
