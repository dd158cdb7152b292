-- ===== src/Dummy/Lifecycle.antt =====
-- Creating, opening, closing and destroying a context of the dummy backend, and what its
-- operations do to the contexts in use.
use cachercise.Base.{◌+◌, ◌<◌, ◌≤◌, ◌≡◌, refl, false, ◌||◌, some, arith, ◌==◌}
use native.Mathlib.Decide.{ℕ_discrete}
use cachercise.Base.Run.{Fault, ok, fault, undefined, uncaught}
use cachercise.Common.{success, Ptr, null}
use cachercise.Hoard.{Hoard}
use cachercise.Hoard
use cachercise.Dummy.Memory.{
  Env, Context, Heap, emit, context, set_context, set_hoard, mutex_create,
}
use cachercise.Dummy.Ownership.{
  live, IsHeap, emit-IsHeap, allocated, allocated-IsHeap, calloc_context-allocated,
  calloc_context-null, set_context-IsHeap, with_hoard, hoard_init-with_hoard, hoard_init-full,
  with_hoard-IsHeap, unowned_next,
}
use cachercise.Dummy.{create_context, open_context}

-- The context at `p` is new in `w'`, and nothing else has changed hands.
pub record New (w : Heap) (p : Ptr) (c : Context) (w' : Heap) : Type 0 where
  pub heap : IsHeap w'
  pub unused : live w p ≡ false
  pub contexts : (q : Ptr) → live w' q ≡ ((q == p) || live w q)
  pub value : w'.contexts p ≡ some c

-- The heap that `open_cache` leaves when it has room.
abbrev pub opened : Ptr → Heap → Heap
opened config w =
    set_context w.next (record { config = config; h = null; hoard_mutex = null }) (allocated w)

pub opened-New :
    (config : Ptr) (w : Heap)
    → IsHeap w
    → New w w.next (record { config = config; h = null; hoard_mutex = null }) (opened config w)
unfolding set_context
opened-New config w i = record {
  heap =
      set_context-IsHeap w.next (record { config = config; h = null; hoard_mutex = null })
        (allocated w) (allocated-IsHeap w i) (ground arith) (λ n. absurd (n refl))
        (λ q d e s n. absurd (n refl));
  unused = ground (arith, i.unused_context w.next);
  contexts = λ q. ground arith;
  value = ground arith;
}

context-allocated :
    (w : Heap)
    → context w.next (allocated w) ≡ ok (record { config = null; h = null; hoard_mutex = null })
unfolding context set_context
context-allocated w = ground arith

context-null : (w : Heap) → IsHeap w → context null w ≡ fault undefined
unfolding context
context-null w i = ground (arith, i.null_context)

room-opened : (config : Ptr) (w : Heap) → 2 ≤ w.room → 0 < (opened config w).room
unfolding set_context
room-opened config w r = omega arith

opened-full : (config : Ptr) (w : Heap) → w.room ≡ 1 → (opened config w).room ≡ 0
unfolding set_context
opened-full config w r = omega arith

next-opened : (config : Ptr) (w : Heap) → (opened config w).next ≡ w.next + 1
unfolding set_context
next-opened config w = refl

module _ (env : Env) where
  -- The heap that `create_cache` leaves when it has room.
  abbrev pub created_context : Heap → Ptr → Context
  created_context w config = record {
    config = config;
    h = w.next + 1;
    hoard_mutex = env.mutex_of w.next;
  }

  abbrev pub created : Ptr → Heap → Heap
  created config w =
      emit (mutex_create (env.mutex_of w.next))
        (set_context w.next (created_context w config) (with_hoard (opened config w)))

  pub created-New :
      (config : Ptr) (w : Heap)
      → IsHeap w
      → New w w.next (created_context w config) (created config w)
        × ((created config w).hoards (w.next + 1) ≡ some Hoard.init)
  unfolding set_context emit set_hoard Hoard.init
  created-New config w i =
      let o : New w w.next _ (opened config w) = opened-New config w i in
      (
        record {
          heap = emit-IsHeap _ _ (
              set_context-IsHeap w.next (created_context w config) (with_hoard (opened config w))
                (with_hoard-IsHeap (opened config w) o.heap) (ground arith) (λ n. ground arith)
                (λ q d e s n. absurd (unowned_next (opened config w) o.heap q d e s)));
          unused = o.unused;
          contexts = λ q. ground arith;
          value = ground arith;
        },
        ground arith,
      )

  pub create_context-created :
      (config : Ptr) (w : Heap)
      → 2 ≤ w.room
      → create_context env config w ≡ ok (success, w.next, created config w)
  unfolding create_context
  create_context-created config w r = rw (
    calloc_context-allocated w (omega arith),
    context-allocated w,
    hoard_init-with_hoard (opened config w) (room-opened config w r),
    next-opened config w,
  )

  -- With less room `calloc` returns NULL, which is written through, or `new` throws.
  pub create_context-full :
      (config : Ptr) (w : Heap)
      → IsHeap w
      → w.room < 2
      → (e : Fault) × (create_context env config w ≡ fault e)
  unfolding create_context
  create_context-full config w i r = elim (ℕ_discrete w.room 0) [
    | yes z ↦ (undefined, rw (calloc_context-null w z, context-null w i))
    | no nz ↦ (
      uncaught,
      rw (
        calloc_context-allocated w (omega arith),
        context-allocated w,
        hoard_init-full (opened config w) (opened-full config w (omega arith)),
      ),
    )
  ]

  pub open_context-opened :
      (config : Ptr) (w : Heap)
      → 0 < w.room
      → open_context env config w ≡ ok (success, w.next, opened config w)
  unfolding open_context
  open_context-opened config w r = rw (calloc_context-allocated w r, context-allocated w)

  pub open_context-full :
      (config : Ptr) (w : Heap)
      → IsHeap w
      → w.room ≡ 0
      → open_context env config w ≡ fault undefined
  unfolding open_context
  open_context-full config w i r = rw (calloc_context-null w r, context-null w i)
