-- ===== src/Dummy/Fresh.antt =====
-- What can be done with a context that the dummy backend has just handed out.
use cachercise.Base.{ℕ, ◌+◌, ◌*◌, ◌<◌, ◌≤◌, ◌^◌, ◌≡◌, String, Option, some, List, [], ◌∷◌, arith}
use cachercise.Base.Run.{ok, fault, undefined}
use cachercise.Common.{success, Ptr, write, read}
use cachercise.Hoard
use cachercise.Dummy.Memory.{Env, Heap}
use cachercise.Dummy.Ownership.{IsHeap}
use cachercise.Dummy.Lifecycle.{
  opened, opened-New, open_context-opened, created, created-New, create_context-created,
  created_context,
}
use cachercise.Dummy.Io.{io-no_hoard}
use cachercise.Dummy.Transfers.{read-write}
use cachercise.Dummy.{parse_config, create_cache, open_cache, io}

module _ (env : Env) (config : Option String) (w : Heap) (i : IsHeap w) (j : Ptr)
    (parsed : parse_config env config ≡ some j) where
  -- With a configuration that parses and room in memory, `open_cache` succeeds; but the context that
  -- it hands out has no hoard, so that whatever transfer comes next on it is undefined.
  pub open_cache-io :
      0 < w.room
      → (p : Ptr) × (w' : Heap) × (open_cache env config w ≡ ok (success, p, w'))
        × ((count offset kind : ℕ) (scratch : List ℕ)
            → io env p count offset scratch kind w' ≡ fault undefined)
  unfolding open_cache
  open_cache-io r =
      let n = opened-New j w i in
      (
        w.next,
        opened j w,
        rw (parsed, open_cache) (open_context-opened env j w r),
        λ count offset kind scratch.
            io-no_hoard env w.next _ (opened j w) n.value count offset kind scratch
              n.heap.null_hoard,
      )

  -- With a configuration that parses and room in memory for the context and the hoard, `create_cache`
  -- succeeds, and what is then written to an offset of the new cache that the vector limit leaves
  -- room for is what is read back from it.
  pub create_cache-io :
      2 ≤ w.room
      → env.vector_max < 2 ^ 63
      → (p : Ptr) × (w₁ : Heap) × (create_cache env config w ≡ ok (success, p, w₁))
        × ((offset v old : ℕ)
            → (offset + 1) * 2 ≤ env.vector_max
            → (w₂ : Heap) × (io env p 8 offset (v ∷ []) write w₁ ≡ ok (1, v ∷ [], w₂))
              × (io env p 8 offset (old ∷ []) read w₂ ≡ ok (1, v ∷ [], w₂)))
  unfolding create_cache Hoard.init
  create_cache-io r b =
      let (n, empty) = created-New env j w i in
      (
        w.next,
        created env j w,
        rw (parsed, create_cache) (create_context-created env j w r),
        λ offset v old f.
            read-write env w.next (created_context env w j) (created env j w) n.value [] offset v
              old empty b (omega arith),
      )
