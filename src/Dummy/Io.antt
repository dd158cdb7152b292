-- ===== src/Dummy/Io.antt =====
-- Reads, writes and sums of the dummy backend, and closing and destroying its contexts.
use cachercise.Base.{
  ℕ, ◌/◌, ◌≡◌, ◌≢◌, refl, true, false, none, some, List, arith, ◌==◌, Option-cases, inl, inr,
}
use native.Mathlib.Decide.{ℕ_discrete}
use cachercise.Base.Run.{Fault, ok, fault, undefined, Yields, Run-cases}
use cachercise.Common.{success, Ptr, write, sign_extend}
use cachercise.Hoard.{Hoard}
use cachercise.Hoard
use cachercise.Dummy.Memory.{
  Env, Context, Heap, emit, context, free_context, hoard, set_hoard, json_put, mutex_free,
  mutex_lock, mutex_unlock,
}
use cachercise.Dummy.Ownership.{
  live, IsHeap, emit-IsHeap, set_hoard-IsHeap, Deleted, finalize-Deleted, hoard_live,
}
use cachercise.Dummy.{close_cache, destroy_cache, io}

context-some : (p : Ptr) (c : Context) (w : Heap) → w.contexts p ≡ some c → context p w ≡ ok c
unfolding context
context-some p c w e = rw e

hoard-some : (p : Ptr) (h : Hoard) (w : Heap) → w.hoards p ≡ some h → hoard p w ≡ ok h
unfolding hoard
hoard-some p c w e = rw e

-- Closing a context in use of a well-formed heap succeeds, and gives back that context and its hoard,
-- if it has one, and no other; the heap stays well formed.
pub close_cache-Deleted :
    (p : Ptr) (c : Context) (w : Heap)
    → IsHeap w
    → w.contexts p ≡ some c
    → (w' : Heap) × (close_cache p w ≡ ok (success, w')) × Deleted p c w w'
unfolding close_cache emit
close_cache-Deleted p c w i e =
    let (w', run, d) =
      finalize-Deleted p c (emit (json_put c.config) w) (emit-IsHeap (json_put c.config) w i) e in
    (
      free_context p w',
      rw (context-some p c w e, run),
      record { heap = d.heap; contexts = d.contexts; hoards = d.hoards },
    )

-- Destroying a context in use of a well-formed heap succeeds, and gives back that context and its
-- hoard, if it has one, and no other; the heap stays well formed.
pub destroy_cache-Deleted :
    (p : Ptr) (c : Context) (w : Heap)
    → IsHeap w
    → w.contexts p ≡ some c
    → (w' : Heap) × (destroy_cache p w ≡ ok (success, w')) × Deleted p c w w'
unfolding destroy_cache emit free_context
destroy_cache-Deleted p c w i e =
    let (w', run, d) =
      finalize-Deleted p c (emit (json_put c.config) w) (emit-IsHeap (json_put c.config) w i) e in
    (
      emit (mutex_free c.hoard_mutex) (free_context p w'),
      rw (context-some p c w e, run),
      record {
        heap = emit-IsHeap (mutex_free c.hoard_mutex) (free_context p w') d.heap;
        contexts = d.contexts;
        hoards = d.hoards;
      },
    )

-- The heap after a write of `h'` to the hoard of `c`.
abbrev pub after_write : Context → Hoard → Heap → Heap
after_write c h' w =
    emit (mutex_unlock c.hoard_mutex) (set_hoard c.h h' (emit (mutex_lock c.hoard_mutex) w))

after_write-IsHeap :
    (c : Context) (h' : Hoard) (w : Heap)
    → IsHeap w
    → hoard_live w c.h ≡ true
    → IsHeap (after_write c h' w)
unfolding emit
after_write-IsHeap c h' w i l =
    emit-IsHeap (mutex_unlock c.hoard_mutex) (set_hoard c.h h' (emit (mutex_lock c.hoard_mutex) w))
      (set_hoard-IsHeap c.h h' (emit (mutex_lock c.hoard_mutex) w)
        (emit-IsHeap (mutex_lock c.hoard_mutex) w i) l)

module _ (env : Env) (p : Ptr) (c : Context) (w : Heap) (is : w.contexts p ≡ some c) where
  pub io_write-put :
      (h h' : Hoard) (count offset kind ret : ℕ) (scratch : List ℕ)
      → kind ≡ write
      → w.hoards c.h ≡ some h
      → Hoard.put env.vector_max h scratch (count / 8) offset ≡ ok (ret, h')
      → io env p count offset scratch kind w ≡ ok (sign_extend ret, scratch, after_write c h' w)
  unfolding io
  io_write-put h h' count offset kind ret scratch k a b =
      rw (k, context-some p c w is, hoard-some c.h h w a, b)

  pub io_read-get :
      (h : Hoard) (count offset kind ret : ℕ) (scratch scratch' : List ℕ)
      → kind ≢ write
      → w.hoards c.h ≡ some h
      → Hoard.get h scratch (count / 8) offset ≡ ok (ret, scratch')
      → io env p count offset scratch kind w ≡ ok (sign_extend ret, scratch', w)
  unfolding io
  io_read-get h count offset kind ret scratch scratch' k a b =
      let other : (kind == write) ≡ false = ground arith in
      rw (context-some p c w is, other, hoard-some c.h h w a, b)

  pub io_write-fault :
      (h : Hoard) (count offset kind : ℕ) (scratch : List ℕ) (e : Fault)
      → kind ≡ write
      → w.hoards c.h ≡ some h
      → Hoard.put env.vector_max h scratch (count / 8) offset ≡ fault e
      → io env p count offset scratch kind w ≡ fault e
  unfolding io
  io_write-fault h count offset kind scratch e k a b =
      rw (k, context-some p c w is, hoard-some c.h h w a, b)

  pub io_read-fault :
      (h : Hoard) (count offset kind : ℕ) (scratch : List ℕ) (e : Fault)
      → kind ≢ write
      → w.hoards c.h ≡ some h
      → Hoard.get h scratch (count / 8) offset ≡ fault e
      → io env p count offset scratch kind w ≡ fault e
  unfolding io
  io_read-fault h count offset kind scratch e k a b =
      let other : (kind == write) ≡ false = ground arith in
      rw (context-some p c w is, other, hoard-some c.h h w a, b)

  pub io-no_hoard :
      (count offset kind : ℕ) (scratch : List ℕ)
      → w.hoards c.h ≡ none
      → io env p count offset scratch kind w ≡ fault undefined
  unfolding io hoard
  io-no_hoard count offset kind scratch n = rw (context-some p c w is) (ground arith)

  -- Whatever is transferred, the heap stays well formed, with the same contexts in use.
  pub io-keeps :
      (count offset kind : ℕ) (scratch : List ℕ)
      → IsHeap w
      → Yields
          (λ (n, s, w'). IsHeap w' × ((q : Ptr) → live w' q ≡ live w q))
          (io env p count offset scratch kind w)
  unfolding set_hoard emit
  io-keeps count offset kind scratch i = elim (Option-cases (w.hoards c.h)) [
    | inl n ↦ rw (io-no_hoard count offset kind scratch n) tt
    | inr (h, a) ↦ elim (ℕ_discrete kind write) [
      | yes k ↦ elim (Run-cases (Hoard.put env.vector_max h scratch (count / 8) offset)) [
        | inl ((ret, h'), r) ↦
            rw (io_write-put h h' count offset kind ret scratch k a r)
              (after_write-IsHeap c h' w i (ground arith), λ q. refl)
        | inr (e, r) ↦ rw (io_write-fault h count offset kind scratch e k a r) tt
      ]
      | no k ↦ elim (Run-cases (Hoard.get h scratch (count / 8) offset)) [
        | inl ((ret, scratch'), r) ↦
            rw (io_read-get h count offset kind ret scratch scratch' k a r) (i, λ q. refl)
        | inr (e, r) ↦ rw (io_read-fault h count offset kind scratch e k a r) tt
      ]
    ]
  ]
