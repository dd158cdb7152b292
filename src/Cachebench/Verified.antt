-- ===== src/Cachebench/Verified.antt =====
-- The end of the benchmark: all the processes finish, and rank 0 reads what they have written.
use cachercise.Base.{
  ℕ, replicate, zero, suc, ◌+◌, ◌-◌, ◌*◌, ◌^◌, ◌<◌, ◌≤◌, ◌≡◌, ◌≢◌, refl, sym, ap, ◌∙◌, true, some,
  List, arith, length, get_elem?, ◌==◌,
}
use mathlib.Core.Path.{subst}
use native.Mathlib.Decide.{ℕ_discrete}
use cachercise.Base.Run.{ok}
use cachercise.Common.{success, read}
use cachercise.Hoard.{Hoard}
use cachercise.Dummy.Memory.{Env, Context, Heap}
use cachercise.Dummy.Items.{io-elem}
use cachercise.Table.{UtHash}
use cachercise.Messages.{IoOut}
use cachercise.Provider.{Cache, Provider}
use cachercise.Client.{Handle}
use cachercise.Client.Bytes.{word, bytes, word-bytes, length-bytes, bytes-AllBytes}
use cachercise.EndToEnd.{served_io, served_read}
use cachercise.Cachebench.{read_items, verify, Bench, Reach, next}
use cachercise.Cachebench.Places.{place_of}
use cachercise.Cachebench.Writing.{Ready, int_ok, Holds, Reach-Filled, can_write}

module _ {T : Type 0} (hash : UtHash T (Cache Heap)) (p : Provider Heap T) (handle : Handle)
    (env : Env) (r : Cache Heap) (c : Context) (nprocs nr_items : ℕ)
    (ready : Ready hash p handle env r (nr_items * nprocs)) where
  abbrev pub Finished : Bench → Type 0
  Finished s = (rank : ℕ) → rank < nprocs → s.written rank ≡ nr_items

  -- Reading one item that is there fills the buffer with its bytes.
  read_item_ok :
      (out : IoOut) (stack j : ℕ) (compare : List ℕ) (w : Heap) (h : Hoard)
      → Holds hash p handle env r c nprocs nr_items ready w h
      → j < nr_items * nprocs
      → length compare ≡ 8
      → get_elem? h j ≡ some (j + 100)
      → served_io hash p out stack handle compare 8 j read w ≡ ok (8, bytes 8 (j + 100), w)
  read_item_ok out stack j compare w h holds l b e =
      let small = ready.small in
      let spelt : word (bytes 8 (j + 100)) ≡ j + 100 = word-bytes 8 (j + 100) (omega arith) in
      served_read hash env p r handle ready.found ready.backend out stack compare
        (bytes 8 (j + 100)) j w w b (length-bytes 8 (j + 100)) (bytes-AllBytes 8 (j + 100))
        (io-elem env r.ctx c w holds.in_use h j (word (bytes 8 (j + 100))) stack holds.stored
          (omega (arith, holds.short)) (e ∙ ap some (sym spelt)))

  read_items_ok :
      (stacks : ℕ → IoOut × ℕ) (k j : ℕ) (compare : List ℕ) (w : Heap) (h : Hoard)
      → Holds hash p handle env r c nprocs nr_items ready w h
      → j + k ≤ nr_items * nprocs
      → length compare ≡ 8
      → ((i : ℕ) → i < nr_items * nprocs → get_elem? h i ≡ some (i + 100))
      → read_items hash p handle stacks k j 0 compare w ≡ ok 0
  unfolding read_items
  read_items_ok stacks zero j compare w h holds l b e = refl
  read_items_ok stacks (suc k) j compare w h holds l b e =
      let small = ready.small in
      let read =
        read_item_ok (stacks j).0 (stacks j).1 j compare w h holds (omega arith) b
          (e j (omega arith)) in
      let same : (word (bytes 8 (j + 100)) == j + 100) ≡ true =
        ground (arith, word-bytes 8 (j + 100) (omega arith)) in
      let rest =
        read_items_ok stacks k (j + 1) (bytes 8 (j + 100)) w h holds (omega arith)
          (length-bytes 8 (j + 100)) e in
      rw (read, same, rest) refl

  -- Where a process has `k` items left, it can go on to its end while the others wait.
  finish_rank :
      (w : Heap) (h : Hoard) (k rank : ℕ)
      → Holds hash p handle env r c nprocs nr_items ready w h
      → rank < nprocs
      → (s : Bench) → Reach hash p handle nprocs nr_items w s
      → s.written rank + k ≡ nr_items
      → (t : Bench) × Reach hash p handle nprocs nr_items w t
        × (t.written rank ≡ nr_items)
        × ((q : ℕ) → q ≢ rank → t.written q ≡ s.written q)
  finish_rank w h zero rank holds l s reach e = (s, reach, omega arith, λ q n. refl)
  finish_rank w h (suc k) rank holds l s reach e =
      let filled = Reach-Filled hash p handle env r c nprocs nr_items ready w h holds reach in
      let (m, step) =
        can_write hash p handle env r c nprocs nr_items ready s rank any 0 filled l (omega arith) in
      let (t, reach', done, others) =
        finish_rank w h k rank holds l _ (next reach step) (ground arith) in
      (t, reach', done, λ q n. others q n ∙ ground arith)
    where
      any : IoOut
      any = record { bytes = 0; scratch = 0; result = 0; ret = success }

  finish_below :
      (w : Heap) (h : Hoard) (n : ℕ)
      → Holds hash p handle env r c nprocs nr_items ready w h
      → n ≤ nprocs
      → (s : Bench) → Reach hash p handle nprocs nr_items w s
      → (t : Bench) × Reach hash p handle nprocs nr_items w t
        × ((q : ℕ) → q < n → t.written q ≡ nr_items)
  finish_below w h zero holds l s reach = (s, reach, λ q b. absurd (omega arith))
  finish_below w h (suc n) holds l s reach =
      let (t, reach', done) = finish_below w h n holds (omega arith) s reach in
      let filled = Reach-Filled hash p handle env r c nprocs nr_items ready w h holds reach' in
      let (u, reach'', last, others) =
        finish_rank w h (nr_items - t.written n) n holds (omega arith) t reach'
          (omega (arith, filled.counts n)) in
      (
        u,
        reach'',
        λ q b. elim (ℕ_discrete q n) [
          | yes e ↦ ap u.written e ∙ last
          | no d ↦ others q d ∙ done q (omega arith)
        ],
      )

  -- Whatever order the processes have gone in so far, the benchmark can go on until all of them have
  -- written all their items, and every write has returned 8.
  pub bench-finishes :
      (w : Heap) (h : Hoard) (s : Bench)
      → Holds hash p handle env r c nprocs nr_items ready w h
      → Reach hash p handle nprocs nr_items w s
      → (t : Bench) × Reach hash p handle nprocs nr_items w t
        × Finished t
        × ((rank : ℕ) → rank < nprocs → t.returned rank ≡ replicate nr_items 8)
  bench-finishes w h s holds reach =
      let (t, reach', done) = finish_below w h nprocs holds (omega arith) s reach in
      let filled = Reach-Filled hash p handle env r c nprocs nr_items ready w h holds reach' in
      (t, reach', done, λ rank l. rw (done rank l) at (filled.sizes rank))

  -- When all the processes have written all their items, in whatever order they have taken turns,
  -- the reads of rank 0 end, and find no error.
  pub bench-verifies :
      (w : Heap) (h : Hoard) (s : Bench) (stacks : ℕ → IoOut × ℕ)
      → Holds hash p handle env r c nprocs nr_items ready w h
      → Reach hash p handle nprocs nr_items w s
      → Finished s
      → verify hash p handle stacks nprocs nr_items s.memory ≡ ok 0
  unfolding verify
  bench-verifies w h s stacks holds reach done =
      let small = ready.small in
      let filled = Reach-Filled hash p handle env r c nprocs nr_items ready w h holds reach in
      let item : (j : ℕ) → j < nr_items * nprocs → get_elem? filled.hoard j ≡ some (j + 100) =
        λ j l.
          let (rank, i, a, b, e) = place_of nprocs nr_items j l in
          subst (λ k. get_elem? filled.hoard k ≡ some (k + 100)) e
            (filled.items rank i a (omega (arith, done rank a))) in
      rw (int_ok (nr_items * nprocs) (omega arith)) (
        read_items_ok stacks (nr_items * nprocs) 0 (bytes 8 (2 ^ 64 - 9999)) s.memory filled.hoard
          filled.holds (omega arith) (length-bytes 8 (2 ^ 64 - 9999)) item)
