-- ===== src/Cachebench/Turns.antt =====
-- examples/cachebench.c with one process after the other: each goes through its whole loop of writes.
use cachercise.Base.{
  ℕ, List, [], zero, suc, ◌+◌, ◌*◌, ◌<◌, ◌≤◌, ◌≡◌, refl, ap, ◌∙◌, true, false, none, some, arith,
  ◌==◌, Bool-cases, inl, inr,
}
use mathlib.Core.Path.{subst}
use cachercise.Base.Run.{Run, ok, ◌>>=◌}
use cachercise.Common.{CacheId}
use cachercise.Dummy.Memory.{Env, Context, Heap}
use cachercise.Hoard
use cachercise.Hoard.{Hoard}
use cachercise.Dummy.Lifecycle.{created_context}
use cachercise.Cachebench.Created.{Hosts, ready, holds, served_create-verify}
use cachercise.Table.{UtHash}
use cachercise.Messages.{IoOut, CreateCacheOut}
use cachercise.Provider.{Cache, Provider}
use cachercise.Client.{Handle}
use cachercise.EndToEnd.Created.{
  served_create, served_create-creates, larger, new_cache, after as after_creation,
}
use cachercise.Cachebench.{write_item, verify, Bench, Reach, start, next, wrote}
use cachercise.Cachebench.Writing.{Ready, Holds, write_item_ok, after, Reach-Filled}

module _ {T : Type 0} (hash : UtHash T (Cache Heap)) (p : Provider Heap T) (handle : Handle)
    (nprocs : ℕ) (stacks : ℕ → IoOut × ℕ) where
  -- The loop of a process, from item `i` on, with `k` items left.
  unfoldable pub write_items : (rank k i : ℕ) → Heap → Run Heap
  write_items rank zero i w = ok w
  write_items rank (suc k) i w = do
    (ret, w') ← write_item hash p handle nprocs rank i (stacks i).0 (stacks i).1 w
    write_items rank k (i + 1) w'

  -- The loops of the processes from `rank` on, `n` of them.
  unfoldable pub write_all : (nr_items n rank : ℕ) → Heap → Run Heap
  unfolding write_items
  write_all nr_items zero rank w = ok w
  write_all nr_items (suc n) rank w = do
    w' ← write_items rank nr_items 0 w
    write_all nr_items n (rank + 1) w'

module _ {T : Type 0} (hash : UtHash T (Cache Heap)) (p : Provider Heap T) (handle : Handle)
    (env : Env) (r : Cache Heap) (c : Context) (nprocs nr_items : ℕ)
    (ready : Ready hash p handle env r (nr_items * nprocs)) (stacks : ℕ → IoOut × ℕ) (w₀ : Heap)
    (h₀ : Hoard) (holds₀ : Holds hash p handle env r c nprocs nr_items ready w₀ h₀) where
  -- The process has written all its items, and the others what they had.
  record Finished (s : Bench) (rank : ℕ) (w : Heap) : Type 0 where
    written : ℕ → ℕ
    returned : ℕ → List ℕ
    reach :
        Reach hash p handle nprocs nr_items w₀
          (record { written = written; returned = returned; memory = w })
    all : written rank ≡ nr_items
    others : (q : ℕ) → (q == rank) ≡ false → written q ≡ s.written q

  write_items-Finished :
      (rank k i : ℕ) (s : Bench)
      → rank < nprocs
      → s.written rank ≡ i
      → i + k ≡ nr_items
      → Reach hash p handle nprocs nr_items w₀ s
      → (w : Heap) × (write_items hash p handle nprocs stacks rank k i s.memory ≡ ok w)
        × Finished s rank w
  unfolding write_items
  write_items-Finished rank zero i s a e n reach = (
    s.memory,
    refl,
    record {
      written = s.written;
      returned = s.returned;
      reach = reach;
      all = omega (arith, e, n);
      others = λ q o. refl;
    },
  )
  write_items-Finished rank (suc k) i s a e n reach =
      let f = Reach-Filled hash p handle env r c nprocs nr_items ready w₀ h₀ holds₀ reach in
      let (h', run, st) =
        write_item_ok hash p handle env r c nprocs nr_items ready rank i (stacks i).0 (stacks i).1
          s.memory f.hoard a (omega (arith, n)) f.holds in
      let s' = after hash p handle env r c nprocs nr_items ready s rank h' in
      let here : s'.written rank ≡ i + 1 = ground (arith, e) in
      let (w, rest, done) = write_items-Finished rank k (i + 1) s' a here (omega (arith, n)) (
        next reach (
          wrote rank (stacks i).0 (stacks i).1 8 s'.memory a (omega (arith, e, n)) (
            ap (λ j. write_item hash p handle nprocs rank j (stacks i).0 (stacks i).1 s.memory) e
            ∙ run))) in
      (
        w,
        rw run rest,
        record {
          written = done.written;
          returned = done.returned;
          reach = done.reach;
          all = done.all;
          others = λ q o. done.others q o ∙ rw o refl;
        },
      )

  write_all-Reach :
      (n rank : ℕ) (s : Bench)
      → rank + n ≤ nprocs
      → Reach hash p handle nprocs nr_items w₀ s
      → ((q : ℕ) → q < rank → s.written q ≡ nr_items)
      → ((q : ℕ) → rank ≤ q → s.written q ≡ 0)
      → (t : Bench) × (write_all hash p handle nprocs stacks nr_items n rank s.memory ≡ ok t.memory)
        × Reach hash p handle nprocs nr_items w₀ t
        × ((q : ℕ) → q < rank + n → t.written q ≡ nr_items)
  unfolding write_all
  write_all-Reach zero rank s a reach before none_yet =
      (s, refl, reach, λ q l. before q (omega arith))
  write_all-Reach (suc n) rank s a reach before none_yet =
      let (w, run, f) =
        write_items-Finished rank nr_items 0 s (omega arith) (none_yet rank (omega arith))
          (omega arith) reach in
      let (t, rest, r, done) =
        write_all-Reach n (rank + 1)
          (record { written = f.written; returned = f.returned; memory = w }) (omega arith) f.reach
          (λ q l. elim (Bool-cases (q == rank)) [
            | inl e ↦
                let same : rank ≡ q = ground arith in subst (λ v. f.written v ≡ nr_items) same f.all
            | inr o ↦ f.others q o ∙ before q (ground arith)
          ])
          (λ q l. f.others q (ground arith) ∙ none_yet q (omega arith)) in
      (t, rw run rest, r, λ q l. done q (omega arith))

-- Rank 0 creates the cache, the processes write their items one process after the other, and rank 0 reads
-- them back: the number of errors.
unfoldable pub benchmark :
    {T : Type 0}
    → UtHash T (Cache Heap)
    → (nprocs nr_items : ℕ) → (stacks : ℕ → IoOut × ℕ) → (uuid : CacheId) → CreateCacheOut
    → Handle
    → Provider Heap T
    → Heap
    → Run ℕ
unfolding write_all
benchmark hash nprocs nr_items stacks uuid out handle p w = do
  (ret, id, p', w₁) ← served_create hash true uuid out p w none (some "dummy") (some "{}")
  w₂ ← write_all hash p' handle nprocs stacks nr_items nprocs 0 w₁
  verify hash p' handle stacks nprocs nr_items w₂

-- On a sound server without a token that can create the cache of the benchmark, where all the items fit in
-- an `int`, and ten times over in the vector, of a limit below 2 ^ 63, and with a handle of that cache, the
-- benchmark whose processes take turns ends, and counts no error.
pub benchmark-passes :
    {T : Type 0} (hash : UtHash T (Cache Heap)) (env : Env) (uuid : CacheId) (p : Provider Heap T)
    (w : Heap) (nprocs nr_items : ℕ)
    → Hosts hash env uuid p w (nr_items * nprocs)
    → (handle : Handle) → handle.cache_id ≡ uuid
    → (stacks : ℕ → IoOut × ℕ) (out : CreateCacheOut)
    → benchmark hash nprocs nr_items stacks uuid out handle p w ≡ ok 0
unfolding benchmark
benchmark-passes hash env uuid p w nprocs nr_items hosts handle named stacks out =
    let created = served_create-creates hash env uuid p w hosts.serves out in
    let grown = larger hash env uuid p w hosts.serves in
    let filled = after_creation hash env uuid p w hosts.serves in
    let (t, run, reach, all) =
      write_all-Reach hash grown handle env (new_cache hash env uuid w)
        (created_context env w (env.parse_ex "{}")) nprocs nr_items
        (ready hash env uuid p w nprocs nr_items hosts handle named) stacks filled Hoard.init
        (holds hash env uuid p w nprocs nr_items hosts handle named) nprocs 0
        (record { written = λ q. 0; returned = λ q. []; memory = filled }) (omega arith) start
        (λ q l. absurd (omega arith)) (λ q l. refl) in
    rw (created, run)
      (served_create-verify hash env uuid p w nprocs nr_items hosts handle named out grown filled t
        stacks created reach (λ q l. all q (omega arith)))
