-- ===== src/Hoard/Bounds.antt =====
-- When `Hoard::put` and `Hoard::get` end, and how far the array grows.
use native.Mathlib.Decide.{dec_le}
use cachercise.Base.{
  ℕ, zero, suc, ◌+◌, ◌-◌, ◌*◌, ◌≤◌, ◌<◌, ◌^◌, ◌≡◌, refl, ap, take, [], ◌∷◌, ◌⊎◌, inl, inr, ap, ◌∙◌,
  List, ◌++◌, arith, ltb, length, get_elem?, if◌then◌else◌, length-append, length-replicate,
  replicate, take, [], ◌∷◌, get_elem?-append_left, get_elem?-append_right, get_elem?-replicate,
  get_elem?-le, none, some,
}
use cachercise.Base.Run.{Run, Fault, Run-cases, ok, fault, undefined}
use cachercise.Common.{u64, to_int32}
use cachercise.Hoard.{Hoard, resize, store, put, get, write_loop, read_loop}
use cachercise.Hoard.Loops.{
  Copied, write_loop-Copied, read_loop-Copied, read_loop-fault, write_loop-fault, write_loop-beyond,
}

-- The array after the growth that `put` makes first: twice the old and the new size together.
pub grown : Hoard → (count offset : ℕ) → Hoard
grown h count offset =
    if ltb (length h) (offset + count)
    then h ++ replicate ((length h + offset + count) * 2 - length h) 0
    else h

-- What `put` asks of its arguments: a vector that can hold the doubled size, and a buffer that
-- holds all it copies.
pub record Fits (max_size : ℕ) (h src : List ℕ) (count offset : ℕ) : Type 0 where
  pub addressable : max_size < 2 ^ 63
  pub room : (length h + offset + count) * 2 ≤ max_size
  pub buffer : count ≤ length src

pub length-grown :
    (h : Hoard) (count offset : ℕ)
    → length (grown h count offset)
      ≡ (if ltb (length h) (offset + count) then (length h + offset + count) * 2 else length h)
unfolding grown
length-grown h count offset = ground (
  arith,
  length-append h (replicate ((length h + offset + count) * 2 - length h) 0),
  length-replicate {0} {A = ℕ} ((length h + offset + count) * 2 - length h) 0,
)

-- The grown array holds the old elements, and then zeros.
pub get_elem?-grown :
    (h : Hoard) (count offset j : ℕ)
    → get_elem? (grown h count offset) j ≡ (
        if ltb j (length h)
        then get_elem? h j
        else if ltb j (length (grown h count offset))
        then some 0
        else none)
unfolding grown
get_elem?-grown h count offset j =
    let n : ℕ = (length h + offset + count) * 2 - length h in
    let zeros : List ℕ = replicate n 0 in
    ground (
      arith,
      get_elem?-le h j,
      get_elem?-le (h ++ zeros) j,
      get_elem?-append_left h zeros j,
      get_elem?-append_right h zeros j,
      get_elem?-replicate {0} {A = ℕ} n (j - length h) 0,
      length-append h zeros,
      length-replicate {0} {A = ℕ} n 0,
    )

pub grow-ok :
    (max_size : ℕ) (h src : List ℕ) (count offset : ℕ)
    → Fits max_size h src count offset
    → (if ltb (length h) (u64 (offset + count))
        then resize max_size (u64 ((length h + offset + count) * 2)) h
        else ok h)
      ≡ ok (grown h count offset)
unfolding resize grown
grow-ok max_size h src count offset f =
    let a : u64 (offset + count) ≡ offset + count = omega arith in
    let b : u64 ((length h + offset + count) * 2) ≡ (length h + offset + count) * 2 = omega arith in
    rw (a, b) (ground arith)

-- `put` succeeds on what fits: the grown array with the buffer copied in.
pub put-Copied :
    (max_size : ℕ) (h src : List ℕ) (count offset : ℕ)
    → Fits max_size h src count offset
    → (h' : Hoard) × (put max_size h src count offset ≡ ok (to_int32 count, h'))
      × Copied count (offset + 0) (λ j. get_elem? src (j - offset)) (grown h count offset) h'
unfolding put
put-Copied max_size h src count offset f =
    let len = length-grown h count offset in
    let (h', run, copied) =
      write_loop-Copied count 0 offset src (grown h count offset) (omega arith) (ground arith)
        (ground arith) in
    (h', rw (grow-ok max_size h src count offset f, run), copied)

-- A `put` that fits succeeds. The array does not shrink, the range written is in it, and its size is
-- the old one, or twice the sum of the old size and the end of the range.
put-length :
    (max_size : ℕ) (h src : List ℕ) (count offset : ℕ)
    → Fits max_size h src count offset
    → (h' : Hoard) × (put max_size h src count offset ≡ ok (to_int32 count, h'))
      × (length h ≤ length h')
      × (offset + count ≤ length h')
      × ((length h' ≡ length h) ⊎ (length h' ≡ (length h + offset + count) * 2))
put-length max_size h src count offset f =
    let (h', run, copied) = put-Copied max_size h src count offset f in
    let len = copied.same_length ∙ length-grown h count offset in
    (h', run, ground arith, ground arith, ground arith)

-- The range that `get` is asked for lies in the array and in the buffer, or is empty.
abbrev pub InRange : (h dest : List ℕ) (count offset : ℕ) → Type 0
InRange h dest count offset = (count ≡ 0) ⊎ ((offset + count ≤ length h) × (count ≤ length dest))

-- What `get` does: inside the array and the buffer it copies, and elsewhere it reads or writes out
-- of bounds.
pub data Got (h dest : List ℕ) (count offset : ℕ) (r : Run (ℕ × List ℕ)) : Type 0 where
  copied :
      (dest' : List ℕ)
      → InRange h dest count offset
      → r ≡ ok (to_int32 count, dest')
      → Copied count 0 (λ j. get_elem? h (offset + j)) dest dest'
      → Got h dest count offset r
  out_of_bounds : ¬ InRange h dest count offset → r ≡ fault undefined → Got h dest count offset r

-- `get` of any range that does not wrap round ends: it copies when the range is empty or lies in
-- the array and the buffer, and is undefined otherwise.
pub get-Got :
    (h dest : List ℕ) (count offset : ℕ)
    → length h < 2 ^ 64
    → offset + count ≤ 2 ^ 64
    → Got h dest count offset (get h dest count offset)
unfolding get read_loop
get-Got h dest zero offset a b =
    copied dest (inl refl) refl (record { same_length = refl; elems = λ j. ground arith })
get-Got h dest (suc n) offset a b = elim (dec_le (offset + suc n) (length h)) [
  | no p ↦
      out_of_bounds (λ r. omega arith)
        (rw
          (read_loop-fault (suc n) 0 offset h dest (omega arith) (inl (omega arith)) (omega arith)))
  | yes p ↦ elim (dec_le (suc n) (length dest)) [
    | no q ↦
        out_of_bounds (λ r. omega arith)
          (rw (
            read_loop-fault (suc n) 0 offset h dest (omega arith) (inr (omega arith))
              (omega arith)))
    | yes q ↦
        let (dest', run, c) =
          read_loop-Copied (suc n) 0 offset h dest (omega arith) (omega arith) a in
        copied dest' (inr (p, q)) (rw run) c
  ]
]

-- A range that wraps round past the top of `size_t`, as one from a negative `int64_t` offset does,
-- passes the size check of `put` whenever the wrapped end lies within the array, and the first
-- write is out of bounds.
pub put-wraps :
    (max_size : ℕ) (h src : List ℕ) (count offset : ℕ)
    → 0 < count
    → offset < 2 ^ 64
    → 2 ^ 64 ≤ offset + count
    → offset + count ≤ 2 ^ 64 + length h
    → length h < 2 ^ 63
    → length h ≤ offset
    → put max_size h src count offset ≡ fault undefined
unfolding put write_loop store
put-wraps max_size h src zero offset pos a b c d e = absurd (omega arith)
put-wraps max_size h src (suc n) offset pos a b c d e =
    let small : u64 (offset + suc n) ≡ offset + suc n - 2 ^ 64 = omega arith in
    let at : u64 (offset + 0) ≡ offset = omega arith in rw small (ground (arith, at))

-- A `put` of more elements than the caller's buffer holds does not end well.
pub put-fault :
    (max_size : ℕ) (h src : List ℕ) (count offset : ℕ)
    → length src < count
    → (e : Fault) × (put max_size h src count offset ≡ fault e)
unfolding put
put-fault max_size h src count offset a =
    elim (Run-cases (
      if ltb (length h) (u64 (offset + count))
      then resize max_size (u64 ((length h + offset + count) * 2)) h
      else ok h)) [
        | inl (h', r) ↦
            let (e, s) = write_loop-fault count 0 offset src h' (omega arith) (omega arith) in
            (e, rw (r, s))
        | inr (e, r) ↦ (e, rw r)
      ]

length-take-lt : (n : ℕ) (xs : List ℕ) → n < length xs → length (take n xs) ≡ n
length-take-lt zero xs h = refl
length-take-lt (suc n) [] h = elim h [ ]
length-take-lt (suc n) (x ∷ xs) h = ap suc (length-take-lt n xs (omega arith))

length-resize : (max_size n : ℕ) (h h' : Hoard) → resize max_size n h ≡ ok h' → length h' ≤ max_size
unfolding resize
length-resize max_size n h h' e = ground (
  arith,
  length-take-lt n h,
  length-append h (replicate (n - length h) 0),
  length-replicate {0} {A = ℕ} (n - length h) 0,
)

-- Nothing is ever put at an offset from 2 ^ 63 on, which is what a negative `int64_t` offset
-- becomes: whatever the count, the resize throws, or the first write is out of bounds.
pub put-negative :
    (max_size : ℕ) (h src : List ℕ) (count offset : ℕ)
    → 0 < count
    → 2 ^ 63 ≤ offset
    → offset < 2 ^ 64
    → length h ≤ max_size
    → max_size < 2 ^ 63
    → (e : Fault) × (put max_size h src count offset ≡ fault e)
unfolding put
put-negative max_size h src count offset pos a b c d =
    elim (Run-cases (
      if ltb (length h) (u64 (offset + count))
      then resize max_size (u64 ((length h + offset + count) * 2)) h
      else ok h)) [
        | inl (h', r) ↦
            let l : length h' ≤ max_size =
              ground (arith, length-resize max_size (u64 ((length h + offset + count) * 2)) h h') in
            let (e, s) = write_loop-beyond count 0 offset src h' pos (omega arith) in (e, rw (r, s))
        | inr (e, r) ↦ (e, rw r)
      ]
