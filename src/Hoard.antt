-- ===== src/Hoard.antt =====
-- src/hoard.hpp and src/hoard.cc: the growing array behind a cache. The array is the list of the
-- bit patterns that it holds. An access outside the vector or outside the caller's buffer is
-- undefined; a resize past `max_size`, a parameter, throws, and nobody catches it.
pub mod Loops
pub mod Bounds
pub mod Contents
use cachercise.Base.{
  ℕ, zero, suc, ◌+◌, ◌-◌, ◌*◌, ◌<◌, List, [], ◌++◌, ltb, leb, length, get_elem?, set, take,
  replicate, if◌then◌else◌,
}
use cachercise.Base.Run.{Run, ok, fault, undefined, uncaught, ◌>>=◌, defined}
use cachercise.Common.{u64, to_int32}

-- std::vector<int64_t> m_hoard
abbrev pub Hoard : Type 0
Hoard = List ℕ

unfoldable pub init : Hoard
init = []

-- m_hoard.resize(n): new elements are 0.
unfoldable pub resize : ℕ → ℕ → Hoard → Run Hoard
resize max_size n h =
    if ltb max_size n
    then fault uncaught
    else if ltb n (length h)
    then ok (take n h)
    else ok (h ++ replicate (n - length h) 0)

-- xs[i] = v, for a vector or a buffer
unfoldable pub store : List ℕ → ℕ → ℕ → Run (List ℕ)
store xs i v = if ltb i (length xs) then ok (set xs i v) else fault undefined

-- The loop of `put`, with `k` rounds left.
unfoldable pub write_loop : ℕ → ℕ → ℕ → List ℕ → Hoard → Run Hoard
write_loop zero i offset src h = ok h
write_loop (suc k) i offset src h = do
  v ← defined (get_elem? src i)
  h' ← store h (u64 (offset + i)) v
  write_loop k (suc i) offset src h'

unfoldable pub put : (max_size : ℕ) → Hoard → List ℕ → (count offset : ℕ) → Run (ℕ × Hoard)
unfolding resize write_loop store
put max_size h src count offset = do
  h' ←
      if ltb (length h) (u64 (offset + count))
      then resize max_size (u64 ((length h + offset + count) * 2)) h
      else ok h
  h'' ← write_loop count 0 offset src h'
  ok (to_int32 count, h'')

-- The loop of `get`, with `k` rounds left.
unfoldable pub read_loop : ℕ → ℕ → ℕ → Hoard → List ℕ → Run (List ℕ)
read_loop zero i offset h dest = ok dest
read_loop (suc k) i offset h dest = do
  v ← defined (get_elem? h (u64 (offset + i)))
  dest' ← store dest i v
  read_loop k (suc i) offset h dest'

unfoldable pub get : Hoard → List ℕ → (count offset : ℕ) → Run (ℕ × List ℕ)
unfolding read_loop store
get h dest count offset = do dest' ← read_loop count 0 offset h dest; ok (to_int32 count, dest')
