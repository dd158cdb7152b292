-- ===== src/Hoard/Loops.antt =====
-- The copying loops of src/hoard.hpp.
use cachercise.Base.{
  ℕ, zero, suc, ◌+◌, ◌-◌, ◌≤◌, ◌<◌, ◌^◌, ◌≡◌, refl, ◌⊎◌, inl, inr, ap, ◌∙◌, List, Option, some,
  Bool, ◌&&◌, arith, ltb, leb, length, get_elem?, set, if◌then◌else◌, length-set,
  get_elem?-set_self, get_elem?-set_ne, get_elem?-lt, get_elem?-le, Option-cases,
}
use native.Mathlib.Decide.{ℕ_discrete, dec_lt}
use cachercise.Base.Run.{Fault, Run-cases, ok, fault, undefined}
use cachercise.Common.{u64}
use cachercise.Hoard.{Hoard, store, write_loop, read_loop}

-- `i` lies in the `n` places from `lo`.
abbrev pub within : ℕ → ℕ → ℕ → Bool
within lo n i = leb lo i && ltb i (lo + n)

-- `xs'` is `xs` with the `k` elements from `from` on taken from `src`.
pub record Copied (k from : ℕ) (src : ℕ → Option ℕ) (xs xs' : List ℕ) : Type 0 where
  pub same_length : length xs' ≡ length xs
  pub elems : (j : ℕ) → get_elem? xs' j ≡ (if within from k j then src j else get_elem? xs j)

store-set : (xs : List ℕ) (i p v : ℕ) → p ≡ i → i < length xs → store xs p v ≡ ok (set xs i v)
unfolding store
store-set xs i p v e h = rw e (ground arith)

Copied-suc :
    (k i i' : ℕ) (src : ℕ → Option ℕ) (xs xs' : List ℕ) (v : ℕ)
    → i' ≡ suc i
    → i < length xs
    → src i ≡ some v
    → Copied k i' src (set xs i v) xs'
    → Copied (suc k) i src xs xs'
Copied-suc k i i' src xs xs' v next h e c = record {
  same_length = c.same_length ∙ length-set xs i v;
  elems = λ j. elim (ℕ_discrete i j) [
    | yes p ↦
        ground
          (arith, c.elems j, get_elem?-set_self xs i v, ap src p, ap (get_elem? (set xs i v)) p)
    | no p ↦ ground (arith, c.elems j, get_elem?-set_ne xs i j v p)
  ];
}

write_loop-suc :
    (k i offset : ℕ) (src h : List ℕ) (v : ℕ)
    → get_elem? src i ≡ some v
    → offset + i < length h
    → length h < 2 ^ 64
    → write_loop (suc k) i offset src h ≡ write_loop k (suc i) offset src (set h (offset + i) v)
unfolding write_loop
write_loop-suc k i offset src h v e a b =
    rw (e, store-set h (offset + i) (u64 (offset + i)) v (omega arith) a)

read_loop-suc :
    (k i offset : ℕ) (h dest : List ℕ) (v : ℕ)
    → get_elem? h (offset + i) ≡ some v
    → i < length dest
    → offset + i < 2 ^ 64
    → read_loop (suc k) i offset h dest ≡ read_loop k (suc i) offset h (set dest i v)
unfolding read_loop
read_loop-suc k i offset h dest v e a b =
    let at : u64 (offset + i) ≡ offset + i = omega arith in
    rw (ap (get_elem? h) at ∙ e, store-set dest i i v refl a)

abbrev pub Written : (k i offset : ℕ) (src h : List ℕ) → Type 0
Written k i offset src h =
    (h' : Hoard) × (write_loop k i offset src h ≡ ok h')
    × Copied k (offset + i) (λ j. get_elem? src (j - offset)) h h'

Written-suc :
    (k i offset : ℕ) (src h : List ℕ) (v : ℕ)
    → get_elem? src i ≡ some v
    → offset + i < length h
    → length h < 2 ^ 64
    → Written k (suc i) offset src (set h (offset + i) v)
    → Written (suc k) i offset src h
Written-suc k i offset src h v e a b (h', run, copied) = (
  h',
  write_loop-suc k i offset src h v e a b ∙ run,
  Copied-suc k (offset + i) (offset + suc i) (λ j. get_elem? src (j - offset)) h h' v (omega arith)
      a (ap (get_elem? src) (omega arith) ∙ e) copied,
)

-- In bounds the loop of `put` ends, and has copied.
pub write_loop-Copied :
    (k i offset : ℕ) (src h : List ℕ)
    → i + k ≤ length src
    → offset + i + k ≤ length h
    → length h < 2 ^ 64
    → Written k i offset src h
unfolding write_loop
write_loop-Copied zero i offset src h a b c =
    (h, refl, record { same_length = refl; elems = λ j. ground arith })
write_loop-Copied (suc k) i offset src h a b c =
    let (v, e) = get_elem?-lt src i (omega arith) in
    Written-suc k i offset src h v e (omega arith) c (
      write_loop-Copied k (suc i) offset src (set h (offset + i) v) (omega arith)
        (omega (arith, length-set h (offset + i) v)) (omega (arith, length-set h (offset + i) v)))

abbrev pub Fetched : (k i offset : ℕ) (h dest : List ℕ) → Type 0
Fetched k i offset h dest =
    (dest' : List ℕ) × (read_loop k i offset h dest ≡ ok dest')
    × Copied k i (λ j. get_elem? h (offset + j)) dest dest'

Fetched-suc :
    (k i offset : ℕ) (h dest : List ℕ) (v : ℕ)
    → get_elem? h (offset + i) ≡ some v
    → i < length dest
    → offset + i < 2 ^ 64
    → Fetched k (suc i) offset h (set dest i v)
    → Fetched (suc k) i offset h dest
Fetched-suc k i offset h dest v e a b (dest', run, copied) = (
  dest',
  read_loop-suc k i offset h dest v e a b ∙ run,
  Copied-suc k i (suc i) (λ j. get_elem? h (offset + j)) dest dest' v refl a e copied,
)

-- In bounds the loop of `get` ends, and has copied.
pub read_loop-Copied :
    (k i offset : ℕ) (h dest : List ℕ)
    → offset + i + k ≤ length h
    → i + k ≤ length dest
    → length h < 2 ^ 64
    → Fetched k i offset h dest
unfolding read_loop
read_loop-Copied zero i offset h dest a b c =
    (dest, refl, record { same_length = refl; elems = λ j. ground arith })
read_loop-Copied (suc k) i offset h dest a b c =
    let (v, e) = get_elem?-lt h (offset + i) (omega arith) in
    Fetched-suc k i offset h dest v e (omega arith) (omega arith) (
      read_loop-Copied k (suc i) offset h (set dest i v) (omega arith)
        (omega (arith, length-set dest i v)) c)

-- A loop of `get` that passes the end of the array, or of the buffer, does not end well.
pub read_loop-fault :
    (k i offset : ℕ) (h dest : List ℕ)
    → offset + i + k ≤ 2 ^ 64
    → (length h < offset + i + k) ⊎ (length dest < i + k)
    → 0 < k
    → read_loop k i offset h dest ≡ fault undefined
unfolding read_loop store
read_loop-fault zero i offset h dest a b c = absurd (omega arith)
read_loop-fault (suc k) i offset h dest a b c =
    let at : u64 (offset + i) ≡ offset + i = omega arith in
    elim (dec_lt (offset + i) (length h)) [
      | no p ↦ rw (ap (get_elem? h) at ∙ get_elem?-le h (offset + i) (omega arith))
      | yes p ↦
          let (v, e) = get_elem?-lt h (offset + i) p in
          elim (dec_lt i (length dest)) [
            | yes q ↦
                read_loop-suc k i offset h dest v e q (omega arith)
                ∙ read_loop-fault k (suc i) offset h (set dest i v) (omega arith)
                    (omega (arith, length-set dest i v)) (omega (arith, length-set dest i v))
            | no q ↦ rw (ap (get_elem? h) at ∙ e) (ground arith)
          ]
    ]

-- A loop of `put` that passes the end of the caller's buffer does not end well.
pub write_loop-fault :
    (k i offset : ℕ) (src h : List ℕ)
    → i ≤ length src
    → length src < i + k
    → (e : Fault) × (write_loop k i offset src h ≡ fault e)
unfolding write_loop
write_loop-fault zero i offset src h a b = absurd (omega arith)
write_loop-fault (suc k) i offset src h a b = elim (dec_lt i (length src)) [
  | no p ↦ (undefined, rw (get_elem?-le src i (omega arith)))
  | yes p ↦
      let (v, e) = get_elem?-lt src i p in
      elim (Run-cases (store h (u64 (offset + i)) v)) [
        | inl (h', r) ↦
            let (f, g) = write_loop-fault k (suc i) offset src h' p (omega arith) in
            (f, rw (e, r, g))
        | inr (f, r) ↦ (f, rw (e, r))
      ]
]

-- Nor does one that begins past the end of the array.
pub write_loop-beyond :
    (k i offset : ℕ) (src h : List ℕ)
    → 0 < k
    → length h ≤ u64 (offset + i)
    → (e : Fault) × (write_loop k i offset src h ≡ fault e)
unfolding write_loop store
write_loop-beyond zero i offset src h a b = absurd (omega arith)
write_loop-beyond (suc k) i offset src h a b = elim (Option-cases (get_elem? src i)) [
  | inl e ↦ (undefined, rw e)
  | inr (v, e) ↦ (undefined, rw e (ground arith))
]
