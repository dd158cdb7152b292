-- ===== src/Dummy/Items.antt =====
-- Reading and writing single items of a cache of the dummy backend, element by element of its hoard.
use cachercise.Base.{
  ℕ, ◌+◌, ◌*◌, ◌^◌, ◌<◌, ◌≤◌, ◌≡◌, refl, ◌∙◌, ap, some, List, [], ◌∷◌, arith, length, get_elem?,
  get_elem?-le, false, ltb, ◌==◌, if◌then◌else◌, inr,
}
use cachercise.Base.Run.{ok}
use cachercise.Common.{Ptr, write, read}
use cachercise.Hoard.{Hoard, put, get}
use cachercise.Hoard.Bounds.{
  Fits, Got, copied, out_of_bounds, get-Got, put-Copied, length-grown, get_elem?-grown,
}
use cachercise.Dummy.Memory.{Env, Context, Heap}
use cachercise.Dummy.Io.{after_write, io_write-put, io_read-get}
use cachercise.Dummy.Transfers.{single}
use cachercise.Dummy.{io}

-- The hoard after a `put` of the one element `v`.
pub record Stored (h : Hoard) (offset v : ℕ) (h' : Hoard) : Type 0 where
  pub size :
      length h' ≡ (if ltb (length h) (offset + 1) then (length h + offset + 1) * 2 else length h)
  pub here : get_elem? h' offset ≡ some v
  pub others : (j a : ℕ) → (offset == j) ≡ false → get_elem? h j ≡ some a → get_elem? h' j ≡ some a

put-Stored :
    (max_size : ℕ) (h : Hoard) (offset v : ℕ)
    → Fits max_size h (v ∷ []) 1 offset
    → (h' : Hoard) × (put max_size h (v ∷ []) 1 offset ≡ ok (1, h')) × Stored h offset v h'
put-Stored max_size h offset v f =
    let (h', run, c) = put-Copied max_size h (v ∷ []) 1 offset f in
    (
      h',
      run,
      record {
        size = c.same_length ∙ length-grown h 1 offset;
        here = ground (arith, c.elems offset);
        others =
            λ j a n e. ground (arith, c.elems j, get_elem?-grown h 1 offset j, get_elem?-le h j);
      },
    )

module _ (env : Env) (p : Ptr) (c : Context) (w : Heap) (is : w.contexts p ≡ some c) where
  -- Writing one item that fits.
  pub io-Stored :
      (h : Hoard) (offset v : ℕ)
      → w.hoards c.h ≡ some h
      → env.vector_max < 2 ^ 63
      → (length h + offset + 1) * 2 ≤ env.vector_max
      → (h' : Hoard) × (io env p 8 offset (v ∷ []) write w ≡ ok (1, v ∷ [], after_write c h' w))
        × Stored h offset v h'
  io-Stored h offset v a b f =
      let (h', run, s) =
        put-Stored env.vector_max h offset v
          (record { addressable = b; room = f; buffer = omega arith }) in
      (h', io_write-put env p c w is h h' 8 offset write 1 (v ∷ []) refl a run, s)

  get-single :
      (h : Hoard) (offset v old : ℕ)
      → get_elem? h offset ≡ some v
      → offset < length h
      → Got h (old ∷ []) 1 offset (get h (old ∷ []) 1 offset)
      → get h (old ∷ []) 1 offset ≡ ok (1, v ∷ [])
  get-single h offset v old e l (copied dest i run c) =
      run
      ∙ ap (λ (d : List ℕ). ok (1, d)) (single dest v c.same_length (ground (arith, c.elems 0, e)))
  get-single h offset v old e l (out_of_bounds n run) = absurd (n (inr (omega arith, omega arith)))

  -- Reading an item that is there.
  pub io-elem :
      (h : Hoard) (offset v old : ℕ)
      → w.hoards c.h ≡ some h
      → length h < 2 ^ 64
      → get_elem? h offset ≡ some v
      → io env p 8 offset (old ∷ []) read w ≡ ok (1, v ∷ [], w)
  io-elem h offset v old a b e =
      let l : offset < length h = ground (arith, get_elem?-le h offset) in
      io_read-get env p c w is h 8 offset read 1 (old ∷ []) (v ∷ []) (λ k. omega arith) a
        (get-single h offset v old e l (get-Got h (old ∷ []) 1 offset b (omega arith)))
