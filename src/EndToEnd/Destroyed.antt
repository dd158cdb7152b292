-- ===== src/EndToEnd/Destroyed.antt =====
-- cachercise_destroy_cache of src/admin.c against the handler of src/provider.c, on a cache of the dummy
-- backend that cachercise_create_cache has just made.
use cachercise.Base.{◌≡◌, refl, ◌∙◌, String, true, false, ◌||◌, Option, none, some, ◌==◌, inl}
use cachercise.Base.Run.{Run, ok, Returns-ok, ◌>>=◌}
use cachercise.Common.{ReturnCode, success, CacheId, Ptr}
use cachercise.Table.{UtHash}
use cachercise.Messages.{CreateCacheOut, CloseCacheIn, CloseCacheOut}
use cachercise.Dummy.Memory.{Env, Heap}
use cachercise.Dummy.Ownership.{live, IsHeap}
use cachercise.Dummy.Lifecycle.{created-New}
use cachercise.Provider.{Cache, Provider, check_token}
use cachercise.Provider.Outcomes.{Closed, destroy_cache-Closed}
use cachercise.Provider.Undone.{Restored, closed-Restored}
use cachercise.Provider.Handlers
use cachercise.Client.Calls.{output}
use cachercise.Admin.{close_answer}
use cachercise.EndToEnd.Created.{
  Serves, new_cache, larger, after, no_token, served_create, served_create-creates, larger-IsSound,
  larger-Added,
}

module _ {W T : Type 0} (hash : UtHash T (Cache W)) where
  -- cachercise_destroy_cache over a transport that delivers.
  unfoldable pub served_destroy :
      Provider W T → W → (token : Option String) → CacheId → Run (ReturnCode × Provider W T × W)
  served_destroy p w token id = do
    (answer, p', w') ← Handlers.destroy_cache hash p w (some (record { token = token; id = id }))
    ok (close_answer (output answer), p', w')

module _ {T : Type 0} (hash : UtHash T (Cache Heap)) (env : Env) (uuid : CacheId)
    (p : Provider Heap T) (w : Heap) (s : Serves hash env uuid p w) where
  abbrev pub grown : Provider Heap T
  grown = larger hash env uuid p w s

  abbrev used : Heap
  used = after hash env uuid p w s

  pub accepted : check_token grown none ≡ ok true
  accepted =
      no_token hash env uuid p w s grown
        ((larger-Added hash env uuid p w s).same_token ∙ s.open_to_all)

  -- The contexts in use after the creation are those of before and the new one.
  used-contexts : (c : Ptr) → live used c ≡ ((c == w.next) || live w c)
  used-contexts c = (created-New env (env.parse_ex "{}") w s.sound.heap).0.contexts c

  unused : live w w.next ≡ false
  unused = (created-New env (env.parse_ex "{}") w s.sound.heap).0.unused

  -- What closing or destroying the new cache leaves, where the heap is `m` while it is there.
  pub ended :
      (m : Heap) (out : CloseCacheOut) (q : Provider Heap T) (v : Heap)
      → ((c : Ptr) → live m c ≡ ((c == w.next) || live w c))
      → Closed hash IsHeap live grown m (record { token = none; id = uuid }) out q v
      → Restored hash IsHeap live p w q v
  ended m out q v contexts closed =
      closed-Restored hash IsHeap live p w grown m (new_cache hash env uuid w) s.unused
        (larger-Added hash env uuid p w s) unused contexts none out q v accepted closed

  -- Destroying a cache undoes its creation. On a sound server without a token that has the dummy
  -- backend, with room for a cache and a fresh id for it, cachercise_create_cache succeeds, and
  -- cachercise_destroy_cache of the cache succeeds after it; then the server is sound, every id finds
  -- what it did before the two, and the contexts in use are those of before.
  pub served_create-destroy :
      (out : CreateCacheOut)
      → (p' q : Provider Heap T) × (w' v : Heap) × (served_create hash true uuid out p w none
            (some "dummy")
            (some "{}")
          ≡ ok (success, some uuid, p', w'))
        × (served_destroy hash p' w' none uuid ≡ ok (success, q, v))
        × Restored hash IsHeap live p w q v
  unfolding served_destroy close_answer
  served_create-destroy out =
      let input : CloseCacheIn = record { token = none; id = uuid } in
      let ((answer, q, v), run, (closed, succeeded)) =
        Returns-ok _ (Handlers.destroy_cache hash grown used (some input)) (
          destroy_cache-Closed hash IsHeap live grown used (larger-IsSound hash env uuid p w s)
            input (inl ((larger-Added hash env uuid p w s).same_token ∙ s.open_to_all))) in
      (
        grown,
        q,
        used,
        v,
        served_create-creates hash env uuid p w s out,
        rw (run, succeeded _ accepted (larger-Added hash env uuid p w s).present) refl,
        ended used answer q v used-contexts closed,
      )
