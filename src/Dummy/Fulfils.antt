-- ===== src/Dummy/Fulfils.antt =====
-- The operations of src/dummy/dummy-backend.c against the contract of a backend.
use cachercise.Base.{
  ◌≡◌, refl, true, String, Option, some, arith, Option-cases, inl, inr, Bool-cases, ℕ, List,
}
use native.Mathlib.Decide.{dec_le, dec_lt}
use cachercise.Base.Int.{ℤ, ◌+ℤ◌, fits_int32}
use cachercise.Base.Run.{Run, Returns, Yields}
use cachercise.Common.{ReturnCode, Ptr}
use cachercise.Backend.{Contract, Created, fresh, refused, Released, SameLive}
use cachercise.Dummy.Memory.{Env, Context, Heap, emit}
use cachercise.Dummy.Ownership.{live, IsHeap, emit-IsHeap}
use cachercise.Dummy.Lifecycle.{
  created-New, opened-New, create_context-created, create_context-full, open_context-opened,
  open_context-full,
}
use cachercise.Dummy.Io.{close_cache-Deleted, destroy_cache-Deleted, io-keeps}
use cachercise.Dummy.{
  parse_config, create_context, open_context, create_cache, open_cache, close_cache, destroy_cache,
  say_hello, compute_sum, io, dummy_backend,
}

live_context : (w : Heap) (p : Ptr) → live w p ≡ true → (c : Context) × (w.contexts p ≡ some c)
live_context w p l = elim (Option-cases (w.contexts p)) [ inl e ↦ ground arith | inr f ↦ f ]

closes :
    (p : Ptr) (w : Heap)
    → IsHeap w
    → live w p ≡ true
    → Returns (λ (r, w'). IsHeap w' × Released IsHeap live w p w') (close_cache p w)
closes p w i l =
    let (c, e) = live_context w p l in
    let (w', run, d) = close_cache-Deleted p c w i e in rw run (d.heap, d.contexts)

destroys :
    (p : Ptr) (w : Heap)
    → IsHeap w
    → live w p ≡ true
    → Returns (λ (r, w'). IsHeap w' × Released IsHeap live w p w') (destroy_cache p w)
destroys p w i l =
    let (c, e) = live_context w p l in
    let (w', run, d) = destroy_cache-Deleted p c w i e in rw run (d.heap, d.contexts)

sums :
    (p : Ptr) (x y : ℤ) (w : Heap)
    → IsHeap w
    → Yields (λ (s, w'). IsHeap w' × SameLive IsHeap live w w') (compute_sum p x y w)
unfolding compute_sum
sums p x y w i = elim (Bool-cases (fits_int32 (x +ℤ y))) [
  | inl e ↦ rw e (i, λ q. refl)
  | inr e ↦ rw e tt
]

abbrev Makes : Heap → Run (ReturnCode × Ptr × Heap) → Type 0
Makes w = Yields (λ (r, p, w'). IsHeap w' × Created IsHeap live w p w' r)

module _ (env : Env) where
  create_context-Makes :
      (config : Ptr) (w : Heap) → IsHeap w → Makes w (create_context env config w)
  create_context-Makes config w i = elim (dec_le 2 w.room) [
    | yes r ↦
        let n = (created-New env config w i).0 in
        rw (create_context-created env config w r) (n.heap, fresh n.unused n.contexts)
    | no r ↦ let (e, f) = create_context-full env config w i (omega arith) in rw f tt
  ]

  open_context-Makes : (config : Ptr) (w : Heap) → IsHeap w → Makes w (open_context env config w)
  open_context-Makes config w i = elim (dec_lt 0 w.room) [
    | yes r ↦
        let n = opened-New config w i in
        rw (open_context-opened env config w r) (n.heap, fresh n.unused n.contexts)
    | no r ↦ rw (open_context-full env config w i (omega arith)) tt
  ]

  create_cache-Makes :
      (config : Option String) (w : Heap) → IsHeap w → Makes w (create_cache env config w)
  unfolding create_cache
  create_cache-Makes config w i = elim (Option-cases (parse_config env config)) [
    | inl e ↦ rw (e, create_cache) (i, refused refl (λ q. refl))
    | inr (j, e) ↦ rw (e, create_cache) (create_context-Makes j w i)
  ]

  open_cache-Makes :
      (config : Option String) (w : Heap) → IsHeap w → Makes w (open_cache env config w)
  unfolding open_cache
  open_cache-Makes config w i = elim (Option-cases (parse_config env config)) [
    | inl e ↦ rw (e, open_cache) (i, refused refl (λ q. refl))
    | inr (j, e) ↦ rw (e, open_cache) (open_context-Makes j w i)
  ]

  io-Keeps :
      (p : Ptr) (count offset : ℕ) (scratch : List ℕ) (kind : ℕ) (w : Heap)
      → IsHeap w
      → live w p ≡ true
      → Yields
          (λ (n, s, w'). IsHeap w' × SameLive IsHeap live w w')
          (io env p count offset scratch kind w)
  io-Keeps p count offset scratch kind w i l =
      let (c, e) = live_context w p l in io-keeps env p c w e count offset kind scratch i

  -- Every operation of the dummy backend keeps the heap well formed. Creating and opening hand out
  -- a context that was not in use, or refuse; closing and destroying a context in use are defined,
  -- and give back that one alone; and the other operations leave the contexts in use as they are.
  pub dummy_backend-Contract : Contract IsHeap live (dummy_backend env)
  unfolding dummy_backend say_hello emit
  dummy_backend-Contract = record {
    creates = create_cache-Makes;
    opens = open_cache-Makes;
    closes = closes;
    destroys = destroys;
    greets = λ p w i l. (emit-IsHeap _ w i, λ q. refl);
    sums = λ p x y w i l. sums p x y w i;
    transfers = io-Keeps;
  }
