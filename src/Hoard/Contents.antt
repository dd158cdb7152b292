-- ===== src/Hoard/Contents.antt =====
-- What `Hoard::get` of src/hoard.hpp reads after `Hoard::put`.
use cachercise.Base.{
  ℕ, ◌+◌, ◌-◌, ◌≤◌, ◌≡◌, ap, none, List, arith, ltb, length, get_elem?, if◌then◌else◌, some,
}
use cachercise.Base.Run.{ok}
use cachercise.Common.{to_int32}
use cachercise.Hoard.{Hoard, put, get}
use cachercise.Hoard.Loops.{within, read_loop-Copied}
use cachercise.Hoard.Bounds.{Fits, get_elem?-grown, length-grown, put-Copied}

index : (offset j : ℕ) (src : List ℕ) → get_elem? src (offset + j - offset) ≡ get_elem? src j
index offset j src = ap (get_elem? src) (omega arith)

-- What fits is read back as it was written, from the same offset and with the same count: `put` and
-- then `get` succeed, and the buffer that was read into, of `count` elements or more, starts with
-- the `count` elements written and is otherwise as it was.
pub get-put :
    (max_size : ℕ) (h src dest : List ℕ) (count offset : ℕ)
    → Fits max_size h src count offset
    → count ≤ length dest
    → (h' : Hoard) × (dest' : List ℕ) × (put max_size h src count offset ≡ ok (to_int32 count, h'))
      × (get h' dest count offset ≡ ok (to_int32 count, dest'))
      × (length dest' ≡ length dest)
      × ((j : ℕ) → get_elem? dest' j ≡ (if ltb j count then get_elem? src j else get_elem? dest j))
unfolding get
get-put max_size h src dest count offset f b =
    let (h', run, c) = put-Copied max_size h src count offset f in
    let len = length-grown h count offset in
    let (dest', run', c') =
      read_loop-Copied count 0 offset h' dest (ground (arith, c.same_length)) (omega arith)
        (ground (arith, c.same_length)) in
    (
      h',
      dest',
      run,
      rw run',
      c'.same_length,
      λ j. ground (arith, c'.elems j, c.elems (offset + j), index offset j src),
    )

-- A `put` that fits succeeds, and this is the element at each index after it: in the range written
-- the buffer's, elsewhere in the old array the old one, and 0 in the rest of what the array has grown
-- by.
pub put-elems :
    (max_size : ℕ) (h src : List ℕ) (count offset : ℕ)
    → Fits max_size h src count offset
    → (h' : Hoard) × (put max_size h src count offset ≡ ok (to_int32 count, h'))
      × ((j : ℕ)
          → get_elem? h' j ≡ (
              if within offset count j
              then get_elem? src (j - offset)
              else if ltb j (length h)
              then get_elem? h j
              else if ltb j (length h')
              then some 0
              else none))
put-elems max_size h src count offset f =
    let (h', run, c) = put-Copied max_size h src count offset f in
    (h', run, λ j. ground (arith, c.elems j, c.same_length, get_elem?-grown h count offset j))
