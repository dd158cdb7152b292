-- ===== src/Cachebench.antt =====
-- examples/cachebench.c: the benchmark. `nprocs` MPI processes write `nr_items` items each to one
-- cache, all at the same time, and rank 0 then reads all the items back and counts the wrong ones.
-- What an uninitialised output or local variable holds is a parameter of each call.
pub mod Config
pub mod Main
pub mod Places
pub mod Writing
pub mod Turns
pub mod Rounds
pub mod Verified
pub mod Created
use cachercise.Base.{
  ℕ, zero, suc, ◌+◌, ◌-◌, ◌*◌, ◌^◌, ◌<◌, ◌≡◌, Option, List, [], ◌∷◌, ltb, ◌==◌, if◌then◌else◌,
}
use cachercise.Base.Run.{Run, ok, fault, undefined, ◌>>=◌}
use cachercise.Common.{write, read}
use cachercise.Dummy.Memory.{Heap}
use cachercise.Table.{UtHash}
use cachercise.Messages.{IoOut}
use cachercise.Provider.{Cache, Provider}
use cachercise.Client.{Handle}
use cachercise.Client.Bytes.{word, bytes}
use cachercise.EndToEnd.{served_io}

-- A sum or product of type `int`, which is undefined when it overflows.
unfoldable pub int : ℕ → Run ℕ
int n = if ltb n (2 ^ 31) then ok n else fault undefined

-- i*nprocs+rank
abbrev pub place : (nprocs rank i : ℕ) → ℕ
place nprocs rank i = i * nprocs + rank

-- The processes: how many items each rank has written, the codes and counts that its calls of
-- cachercise_write returned, the last first, and the memory of the backend.
pub record Bench : Type 0 where
  pub written : ℕ → ℕ
  pub returned : ℕ → List ℕ
  pub memory : Heap

module _ {T : Type 0} (hash : UtHash T (Cache Heap)) (p : Provider Heap T) (handle : Handle) where
  -- The body of the loop that writes, with `ret`, which nothing reads.
  unfoldable pub write_item : (nprocs rank i : ℕ) (out : IoOut) (stack : ℕ) → Heap → Run (ℕ × Heap)
  unfolding int
  write_item nprocs rank i out stack w = do
    value ← int (place nprocs rank i + 100)
    offset ← int (place nprocs rank i)
    (ret, buf, w') ← served_io hash p out stack handle (bytes 8 value) 8 offset write w
    ok (ret, w')

  -- The loop that reads, from item `j` on, with `k` items left; `compare` is the bytes of the variable
  -- that is read into, and `stacks` what its calls find on the stack. It stops at the sixth error.
  unfoldable pub read_items :
      (stacks : ℕ → IoOut × ℕ) (k j nerrors : ℕ) (compare : List ℕ) → Heap → Run ℕ
  read_items stacks zero j nerrors compare w = ok nerrors
  read_items stacks (suc k) j nerrors compare w = do
    (ret, compare', w') ← served_io hash p (stacks j).0 (stacks j).1 handle compare 8 j read w
    let nerrors' = if word compare' == j + 100 then nerrors else nerrors + 1
    let rest = read_items stacks k (j + 1) nerrors' compare' w'
    if ltb 5 nerrors' then ok nerrors' else rest

  -- Rank 0 after the barrier: the number of errors.
  unfoldable pub verify : (stacks : ℕ → IoOut × ℕ) (nprocs nr_items : ℕ) → Heap → Run ℕ
  unfolding int read_items
  verify stacks nprocs nr_items w = do
    total ← int (nr_items * nprocs)
    read_items stacks total 0 0 (bytes 8 (2 ^ 64 - 9999)) w

  -- One process writes its next item.
  pub data Step (nprocs nr_items : ℕ) (s : Bench) : Bench → Type 0 where
    wrote :
        (rank : ℕ) (out : IoOut) (stack ret : ℕ) (w' : Heap)
        → rank < nprocs
        → s.written rank < nr_items
        → write_item nprocs rank (s.written rank) out stack s.memory ≡ ok (ret, w')
        → Step nprocs nr_items s (record {
          written = λ q. if q == rank then s.written q + 1 else s.written q;
          returned = λ q. if q == rank then ret ∷ s.returned q else s.returned q;
          memory = w';
        })

  -- What the processes can come to, in any order, from a memory that nothing has been written to.
  pub data Reach (nprocs nr_items : ℕ) (w : Heap) : Bench → Type 0 where
    start : Reach nprocs nr_items w (record { written = λ q. 0; returned = λ q. []; memory = w })
    next :
        {s t : Bench}
        → Reach nprocs nr_items w s
        → Step nprocs nr_items s t
        → Reach nprocs nr_items w t
