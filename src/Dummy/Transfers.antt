-- ===== src/Dummy/Transfers.antt =====
-- Transfers of one 64-bit item through the dummy backend, as the provider asks for them: `scratch`
-- is a buffer of a single `int64_t`.
use cachercise.Base.{
  ℕ, ◌+◌, ◌*◌, ◌/◌, ◌^◌, ◌<◌, ◌≤◌, ◌≡◌, refl, some, List, [], ◌∷◌, arith, length, get_elem?, ◌∙◌,
  ap,
}
use native.Mathlib.Decide.{ℕ_discrete}
use cachercise.Base.Run.{Run, Fault, ok, fault, undefined}
use cachercise.Common.{Ptr, write, read}
use cachercise.Hoard.{Hoard}
use cachercise.Hoard.Bounds.{InRange, Got, get-Got, copied, out_of_bounds, put-fault, put-negative}
use cachercise.Hoard.Contents.{get-put}
use cachercise.Dummy.Memory.{Env, Context, Heap, emit, set_hoard}
use cachercise.Dummy.Io.{after_write, io_write-put, io_read-get, io_write-fault, io_read-fault}
use cachercise.Dummy.{io}

-- A list of one element is known by that element.
pub single : (xs : List ℕ) (v : ℕ) → length xs ≡ 1 → get_elem? xs 0 ≡ some v → xs ≡ v ∷ []
single [] v l e = absurd (omega arith)
single (x ∷ []) v l e = ground arith
single (x ∷ y ∷ xs) v l e = absurd (omega arith)

out :
    {h dest : List ℕ} {count offset : ℕ} {r : Run (ℕ × List ℕ)}
    → Got h dest count offset r
    → ¬ InRange h dest count offset
    → r ≡ fault undefined
out (copied dest' i e c) n = absurd (n i)
out (out_of_bounds i e) n = e

pub contexts-after_write :
    (c : Context) (h' : Hoard) (w : Heap) (p : Ptr)
    → w.contexts p ≡ some c
    → (after_write c h' w).contexts p ≡ some c
unfolding emit set_hoard
contexts-after_write c h' w p e = e

pub hoards-after_write :
    (c : Context) (h' : Hoard) (w : Heap) → (after_write c h' w).hoards c.h ≡ some h'
unfolding emit set_hoard
hoards-after_write c h' w = ground arith

-- Transfers on a context `c` in use at `p`.
module _ (env : Env) (p : Ptr) (c : Context) (w : Heap) (is : w.contexts p ≡ some c) where
  -- What is written to an offset of a cache is what is read back from it: on a context in use whose
  -- hoard `h` and vector limit leave room for the offset, writing one item succeeds, and reading
  -- the same offset of the heap that the write leaves succeeds and gives the item back, whatever
  -- the buffer held before. Both return 1.
  pub read-write :
      (h : Hoard) (offset v old : ℕ)
      → w.hoards c.h ≡ some h
      → env.vector_max < 2 ^ 63
      → (length h + offset + 1) * 2 ≤ env.vector_max
      → (w' : Heap) × (io env p 8 offset (v ∷ []) write w ≡ ok (1, v ∷ [], w'))
        × (io env p 8 offset (old ∷ []) read w' ≡ ok (1, v ∷ [], w'))
  read-write h offset v old a b f =
      let (h', d, put_run, get_run, l, elems) =
        get-put env.vector_max h (v ∷ []) (old ∷ []) 1 offset
          (record { addressable = b; room = f; buffer = omega arith }) (omega arith) in
      let e : d ≡ v ∷ [] = single d v l (elems 0) in
      (
        after_write c h' w,
        io_write-put env p c w is h h' 8 offset write 1 (v ∷ []) refl a put_run,
        io_read-get env p c (after_write c h' w) (contexts-after_write c h' w p is) h' 8 offset read
            1 (old ∷ []) (v ∷ []) (λ k. omega arith) (hoards-after_write c h' w)
            (get_run ∙ ap (λ (t : List ℕ). ok (1, t)) e),
      )

  -- On a context in use with a hoard, a count of two items or more overruns the single `int64_t`
  -- behind `scratch`: whatever the kind, and at any offset from which the range does not wrap round,
  -- the transfer is a fault.
  pub io-overrun :
      (h : Hoard) (count offset kind v : ℕ)
      → w.hoards c.h ≡ some h
      → 16 ≤ count
      → length h < 2 ^ 64
      → offset + count / 8 ≤ 2 ^ 64
      → (e : Fault) × (io env p count offset (v ∷ []) kind w ≡ fault e)
  io-overrun h count offset kind v a b l r = elim (ℕ_discrete kind write) [
    | yes k ↦
        let (e, f) = put-fault env.vector_max h (v ∷ []) (count / 8) offset (omega arith) in
        (e, io_write-fault env p c w is h count offset kind (v ∷ []) e k a f)
    | no k ↦ (
      undefined,
      io_read-fault env p c w is h count offset kind (v ∷ []) undefined k a
          (out (get-Got h (v ∷ []) (count / 8) offset l r) λ t. omega arith),
    )
  ]

  -- On a context in use with a hoard, a read of one item at or past the end of the hoard is not
  -- refused: it is undefined.
  pub io-past_end :
      (h : Hoard) (offset v : ℕ)
      → w.hoards c.h ≡ some h
      → length h ≤ offset
      → offset < 2 ^ 64
      → io env p 8 offset (v ∷ []) read w ≡ fault undefined
  io-past_end h offset v a l r =
      io_read-fault env p c w is h 8 offset read (v ∷ []) undefined (λ k. omega arith) a
        (out (get-Got h (v ∷ []) 1 offset (omega arith) (omega arith)) λ t. omega arith)

  -- On a context in use with a hoard within the vector limit, a write of one item or more at a
  -- negative offset, which is one from 2 ^ 63 on as a `size_t`, is a fault.
  pub io-negative :
      (h : Hoard) (count offset v : ℕ)
      → w.hoards c.h ≡ some h
      → 8 ≤ count
      → 2 ^ 63 ≤ offset
      → offset < 2 ^ 64
      → length h ≤ env.vector_max
      → env.vector_max < 2 ^ 63
      → (e : Fault) × (io env p count offset (v ∷ []) write w ≡ fault e)
  io-negative h count offset v a b lo hi l m =
      let (e, f) =
        put-negative env.vector_max h (v ∷ []) (count / 8) offset (omega arith) lo hi l m in
      (e, io_write-fault env p c w is h count offset write (v ∷ []) e refl a f)
