-- ===== src/Cachebench/Rounds.antt =====
-- The two loops of main of examples/cachebench.c by one process, whatever its calls of
-- cachercise_write and cachercise_read are answered.
use cachercise.Base.{
  ℕ, zero, suc, ◌+◌, ◌-◌, ◌*◌, ◌^◌, ◌<◌, ◌≤◌, ◌≡◌, refl, List, ltb, ◌==◌, if◌then◌else◌, arith,
  length, Bool-cases, inl, inr, ap,
}
use cachercise.Base.Run.{Run, ok, ◌>>=◌}
use cachercise.Common.{write, read, to_int32}
use cachercise.Messages.{IoIn, IoOut}
use cachercise.Client.{Handle}
use cachercise.Client.Bytes.{word, bytes, memcpy-length, length-bytes}
use cachercise.Client.Calls.{
  Answer, no_handle, not_forwarded, no_output, output, io, io_answer, scratch_in, io_input,
}
use cachercise.Cachebench.{place, int}
use cachercise.Cachebench.Places.{place_lt}
use cachercise.Cachebench.Writing.{int_ok}

-- What the i-th calls of cachercise_write and cachercise_read find on the stack, and what they are
-- answered.
pub record Rounds : Type 0 where
  pub write_stack : ℕ → ℕ
  pub write_transport : ℕ → IoIn → Answer IoOut
  pub read_stack : ℕ → ℕ
  pub read_transport : ℕ → IoIn → Answer IoOut

module _ (r : Rounds) (handle : Handle) (nprocs : ℕ) where
  -- The loop that writes, from item `i` on, with `k` items left; the last `i`.
  unfoldable pub write_rounds : (rank k i : ℕ) → Run ℕ
  unfolding int io
  write_rounds rank zero i = ok i
  write_rounds rank (suc k) i = do
    value ← int (place nprocs rank i + 100)
    offset ← int (place nprocs rank i)
    (ret, buf) ← io (r.write_transport i) (r.write_stack i) handle (bytes 8 value) 8 offset write
    write_rounds rank k (i + 1)

  -- The loop of rank 0 that reads, from item `j` on, with `k` items left, and `compare` the bytes of
  -- the variable that is read into; the number of errors.
  unfoldable pub read_rounds : (k j nerrors : ℕ) (compare : List ℕ) → Run ℕ
  unfolding io
  read_rounds zero j nerrors compare = ok nerrors
  read_rounds (suc k) j nerrors compare = do
    (ret, compare') ← io (r.read_transport j) (r.read_stack j) handle compare 8 j read
    let nerrors' = if word compare' == j + 100 then nerrors else nerrors + 1
    let rest = read_rounds k (j + 1) nerrors' compare'
    if ltb 5 nerrors' then ok nerrors' else rest

  -- Both, with the products that rank 0 takes for its report and for the bound of the second loop.
  unfoldable pub rounds : (rank nr_items : ℕ) → Run ℕ
  unfolding int write_rounds read_rounds
  rounds rank nr_items = do
    i ← write_rounds rank nr_items 0
    if rank == 0
        then (do
          total ← int (nr_items * nprocs)
          bound ← int (i * nprocs)
          read_rounds bound 0 0 (bytes 8 (2 ^ 64 - 9999)))
        else ok 0

  -- Whatever a call with a buffer of eight bytes is answered, it returns, and leaves one of eight.
  io-returns :
      (transport : IoIn → Answer IoOut) (stack : ℕ) (buf : List ℕ) (offset kind : ℕ)
      → length buf ≡ 8
      → (ret : ℕ) × (buf' : List ℕ) × (io transport stack handle buf 8 offset kind ≡ ok (ret, buf'))
        × (length buf' ≡ 8)
  unfolding io scratch_in io_answer
  io-returns transport stack buf offset kind l =
      let (scratch, e) = scratch_ok in
      let (ret, buf', f, k) = answer_ok (transport (io_input handle 8 offset kind scratch)) in
      (ret, buf', rw e f, k)
    where
      scratch_ok : (s : ℕ) × (scratch_in stack buf 8 kind ≡ ok s)
      scratch_ok = elim (Bool-cases (kind == write)) [
        | inr n ↦ (stack, rw n refl)
        | inl y ↦
            let (s, e, _) =
              memcpy-length 8 (bytes 8 stack) buf (omega (arith, length-bytes 8 stack))
                (omega arith) in
            (word s, rw (y, e) refl)
      ]

      answer_ok :
          (a : Answer IoOut)
          → (ret : ℕ) × (buf' : List ℕ) × (io_answer buf kind a ≡ ok (ret, buf'))
            × (length buf' ≡ 8)
      answer_ok no_handle = (_, buf, refl, l)
      answer_ok not_forwarded = (_, buf, refl, l)
      answer_ok no_output = (_, buf, refl, l)
      answer_ok (output out) = elim (Bool-cases (kind == read)) [
        | inr n ↦ (to_int32 out.bytes, buf, rw n refl, l)
        | inl y ↦
            let m = if ltb 8 out.bytes then 8 else out.bytes in
            let b : m ≤ 8 = ground arith in
            let (buf', e, k) =
              memcpy-length m buf (bytes 8 out.scratch) (omega arith)
                (omega (arith, length-bytes 8 out.scratch)) in
            (to_int32 m, buf', rw (y, e) refl, omega arith)
      ]

  write_rounds-ok :
      (nr_items rank k i : ℕ)
      → rank < nprocs
      → i + k ≡ nr_items
      → nr_items * nprocs + 100 ≤ 2 ^ 31
      → write_rounds rank k i ≡ ok nr_items
  unfolding write_rounds
  write_rounds-ok nr_items rank zero i a e b = let i≡ : i ≡ nr_items = omega arith in ap ok i≡
  write_rounds-ok nr_items rank (suc k) i a e b =
      let l = place_lt nprocs nr_items rank i a (omega arith) in
      let (ret, buf, run, _) =
        io-returns (r.write_transport i) (r.write_stack i) (bytes 8 (place nprocs rank i + 100))
          (place nprocs rank i) write (length-bytes 8 (place nprocs rank i + 100)) in
      rw
        (
          int_ok (place nprocs rank i + 100) (omega arith),
          int_ok (place nprocs rank i) (omega arith),
          run,
        )
        (write_rounds-ok nr_items rank k (i + 1) a (omega arith) b)

  read_rounds-ok :
      (k j nerrors : ℕ) (compare : List ℕ)
      → length compare ≡ 8
      → (n : ℕ) × (read_rounds k j nerrors compare ≡ ok n)
  unfolding read_rounds
  read_rounds-ok zero j nerrors compare l = (nerrors, refl)
  read_rounds-ok (suc k) j nerrors compare l =
      let (ret, compare', run, l') =
        io-returns (r.read_transport j) (r.read_stack j) compare j read l in
      let nerrors' = if word compare' == j + 100 then nerrors else nerrors + 1 in
      let (n, rest) = read_rounds-ok k (j + 1) nerrors' compare' l' in
      elim (Bool-cases (ltb 5 nerrors')) [
        | inl y ↦ (nerrors', rw (run, y) refl)
        | inr o ↦ (n, rw (run, o, rest) refl)
      ]

  -- Where the places of all the items and the values there fit in an `int`, the loops end, whatever
  -- the calls in them are answered.
  pub rounds-ok :
      (rank nr_items : ℕ)
      → rank < nprocs
      → nr_items * nprocs + 100 ≤ 2 ^ 31
      → (n : ℕ) × (rounds rank nr_items ≡ ok n)
  unfolding rounds
  rounds-ok rank nr_items a b =
      let written = write_rounds-ok nr_items rank nr_items 0 a (omega arith) b in
      let (n, run) =
        read_rounds-ok (nr_items * nprocs) 0 0 (bytes 8 (2 ^ 64 - 9999))
          (length-bytes 8 (2 ^ 64 - 9999)) in
      elim (Bool-cases (rank == 0)) [
        | inl y ↦ (n, rw (written, y, int_ok (nr_items * nprocs) (omega arith), run) refl)
        | inr o ↦ (0, rw (written, o) refl)
      ]
