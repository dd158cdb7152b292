-- ===== src/Dummy/Ownership.antt =====
-- The memory of the dummy backend: every hoard belongs to one context, and no context points to a
-- hoard that has been deleted.
use cachercise.Base.{
  ◌+◌, ◌-◌, ◌<◌, ◌≤◌, ◌≡◌, ◌≢◌, ap, Bool, true, false, not, ◌&&◌, Option, none, some, arith, ◌==◌,
}
use native.Mathlib.Decide.{ℕ_discrete}
use cachercise.Base.Run.{ok, fault, uncaught}
use cachercise.Common.{Ptr, null}
use cachercise.Hoard.{Hoard}
use cachercise.Hoard
use cachercise.Dummy.Memory.{
  Context, Event, Heap, update, emit, set_context, free_context, calloc_context, hoard_init,
  set_hoard, hoard_finalize,
}

abbrev pub is_some {ℓ} : {A : Type ℓ} → Option A → Bool
is_some none = false
is_some (some _) = true

-- A context lives at the address.
abbrev pub live : Heap → Ptr → Bool
live w p = is_some (w.contexts p)

abbrev pub hoard_live : Heap → Ptr → Bool
hoard_live w h = is_some (w.hoards h)

pub record IsHeap (w : Heap) : Type 0 where
  pub next_pos : 0 < w.next
  pub null_context : w.contexts null ≡ none
  pub null_hoard : w.hoards null ≡ none
  pub unused_context : (p : Ptr) → w.next ≤ p → w.contexts p ≡ none
  pub unused_hoard : (p : Ptr) → w.next ≤ p → w.hoards p ≡ none
  -- A context without a hoard has NULL there.
  pub owned : (p : Ptr) (c : Context) → w.contexts p ≡ some c → c.h ≢ null → hoard_live w c.h ≡ true
  pub distinct :
      (p q : Ptr) (c d : Context)
      → w.contexts p ≡ some c
      → w.contexts q ≡ some d
      → c.h ≡ d.h
      → c.h ≢ null
      → p ≡ q

pub emit-IsHeap : (e : Event) (w : Heap) → IsHeap w → IsHeap (emit e w)
unfolding emit
emit-IsHeap e w i = record {
  next_pos = i.next_pos;
  null_context = i.null_context;
  null_hoard = i.null_hoard;
  unused_context = i.unused_context;
  unused_hoard = i.unused_hoard;
  owned = i.owned;
  distinct = i.distinct;
}

pub set_hoard-IsHeap :
    (h : Ptr) (v : Hoard) (w : Heap) → IsHeap w → hoard_live w h ≡ true → IsHeap (set_hoard h v w)
unfolding set_hoard
set_hoard-IsHeap h v w i e = record {
  next_pos = i.next_pos;
  null_context = i.null_context;
  null_hoard = ground (arith, i.null_hoard);
  unused_context = i.unused_context;
  unused_hoard = λ p l. ground (arith, i.unused_hoard p);
  owned = λ p c a b. ground (arith, i.owned p c);
  distinct = i.distinct;
}

abbrev zeroed : Context
zeroed = record { config = null; h = null; hoard_mutex = null }

-- What `calloc` leaves when there is room: a context of zeros at a fresh address.
abbrev pub allocated : Heap → Heap
allocated w = set_context w.next zeroed (record w { next = w.next + 1; room = w.room - 1 })

pub calloc_context-allocated : (w : Heap) → 0 < w.room → calloc_context w ≡ (w.next, allocated w)
unfolding calloc_context set_context
calloc_context-allocated w r = ground arith

pub calloc_context-null : (w : Heap) → w.room ≡ 0 → calloc_context w ≡ (null, w)
unfolding calloc_context
calloc_context-null w r = ground arith

pub allocated-IsHeap : (w : Heap) → IsHeap w → IsHeap (allocated w)
unfolding set_context
allocated-IsHeap w i = record {
  next_pos = omega arith;
  null_context = ground (arith, i.null_context, i.next_pos);
  null_hoard = i.null_hoard;
  unused_context = λ p l. ground (arith, i.unused_context p);
  unused_hoard = λ p l. ground (arith, i.unused_hoard p);
  owned = λ p c' a b. ground (arith, i.owned p c');
  distinct = λ p q c' d a b s n. ground (arith, i.distinct p q c' d);
}

-- A store to a context that lives keeps the heap, if the hoard that it takes over is its own.
pub set_context-IsHeap :
    (p : Ptr) (c : Context) (w : Heap)
    → IsHeap w
    → live w p ≡ true
    → (c.h ≢ null → hoard_live w c.h ≡ true)
    → ((q : Ptr) (d : Context) → w.contexts q ≡ some d → d.h ≡ c.h → c.h ≢ null → q ≡ p)
    → IsHeap (set_context p c w)
unfolding set_context
set_context-IsHeap p c w i l own alone = record {
  next_pos = i.next_pos;
  null_context = ground (arith, i.null_context);
  null_hoard = i.null_hoard;
  unused_context = λ q a. ground (arith, i.unused_context q);
  unused_hoard = i.unused_hoard;
  owned = λ q d a b. ground (arith, i.owned q d, own);
  distinct = λ q r d f a b s t. ground (arith, i.distinct q r d f, alone q d, alone r f);
}

-- What `new Hoard` leaves when there is room.
abbrev pub with_hoard : Heap → Heap
with_hoard w = set_hoard w.next Hoard.init (record w { next = w.next + 1; room = w.room - 1 })

pub hoard_init-with_hoard : (w : Heap) → 0 < w.room → hoard_init w ≡ ok (w.next, with_hoard w)
unfolding hoard_init set_hoard
hoard_init-with_hoard w r = ground arith

pub hoard_init-full : (w : Heap) → w.room ≡ 0 → hoard_init w ≡ fault uncaught
unfolding hoard_init
hoard_init-full w r = ground arith

pub with_hoard-IsHeap : (w : Heap) → IsHeap w → IsHeap (with_hoard w)
unfolding set_hoard
with_hoard-IsHeap w i = record {
  next_pos = omega arith;
  null_context = i.null_context;
  null_hoard = ground (arith, i.null_hoard, i.next_pos);
  unused_context = λ p l. ground (arith, i.unused_context p);
  unused_hoard = λ p l. ground (arith, i.unused_hoard p);
  owned = λ p c' a b. ground (arith, i.owned p c');
  distinct = i.distinct;
}

-- No context points to an address that has not been handed out.
pub unowned_next :
    (w : Heap) → IsHeap w → (q : Ptr) (d : Context) → w.contexts q ≡ some d → d.h ≢ w.next
unowned_next w i q d e n =
    ground (arith, i.owned q d, i.unused_hoard w.next, ap w.hoards n, i.next_pos)

-- What deleting the context `c` at `p`, and its hoard, leaves.
pub record Deleted (p : Ptr) (c : Context) (w w' : Heap) : Type 0 where
  pub heap : IsHeap w'
  pub contexts : (q : Ptr) → live w' q ≡ (not (q == p) && live w q)
  pub hoards : (h : Ptr) → hoard_live w' h ≡ (not (h == c.h) && hoard_live w h)

delete_null-Deleted :
    (p : Ptr) (c : Context) (w : Heap)
    → IsHeap w
    → w.contexts p ≡ some c
    → c.h ≡ null
    → Deleted p c w (free_context p w)
unfolding free_context
delete_null-Deleted p c w i e n = record {
  heap = record {
    next_pos = i.next_pos;
    null_context = ground (arith, i.null_context);
    null_hoard = i.null_hoard;
    unused_context = λ q l. ground (arith, i.unused_context q);
    unused_hoard = i.unused_hoard;
    owned = λ q d a b. ground (arith, i.owned q d);
    distinct = λ q r d f a b s t. ground (arith, i.distinct q r d f);
  };
  contexts = λ q. ground arith;
  hoards = λ h. ground (arith, i.null_hoard, ap w.hoards n);
}

delete_hoard-Deleted :
    (p : Ptr) (c : Context) (w : Heap)
    → IsHeap w
    → w.contexts p ≡ some c
    → c.h ≢ null
    → Deleted p c w (free_context p (record w { hoards = update w.hoards c.h none }))
unfolding free_context update
delete_hoard-Deleted p c w i e n = record {
  heap = record {
    next_pos = i.next_pos;
    null_context = ground (arith, i.null_context);
    null_hoard = ground (arith, i.null_hoard);
    unused_context = λ q l. ground (arith, i.unused_context q);
    unused_hoard = λ q l. ground (arith, i.unused_hoard q);
    owned = λ q d a b. ground (arith, i.owned q d, i.distinct q p d c);
    distinct = λ q r d f a b s t. ground (arith, i.distinct q r d f);
  };
  contexts = λ q. ground arith;
  hoards = λ h. ground arith;
}

-- Deleting a context that lives is defined, and frees it and its hoard and nothing else.
pub finalize-Deleted :
    (p : Ptr) (c : Context) (w : Heap)
    → IsHeap w
    → w.contexts p ≡ some c
    → (w' : Heap) × (hoard_finalize c.h w ≡ ok w') × Deleted p c w (free_context p w')
unfolding hoard_finalize
finalize-Deleted p c w i e = elim (ℕ_discrete c.h null) [
  | yes n ↦ (w, ground arith, delete_null-Deleted p c w i e n)
  | no n ↦ (
    record w { hoards = update w.hoards c.h none },
    ground (arith, i.owned p c),
    delete_hoard-Deleted p c w i e n,
  )
]
