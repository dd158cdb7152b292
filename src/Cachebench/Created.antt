-- ===== src/Cachebench/Created.antt =====
-- The benchmark from the creation of its cache on: rank 0 creates the cache, and all the processes
-- work on it.
use cachercise.Base.{
  ℕ, replicate, ◌+◌, ◌*◌, ◌^◌, ◌<◌, ◌≤◌, ◌≡◌, refl, sym, ap, ◌∙◌, true, Option, none, some, arith,
}
use mathlib.Core.Path.{subst}
use cachercise.Base.Run.{ok_injective, ok}
use cachercise.Common.{ReturnCode, success, CacheId}
use cachercise.Hoard
use cachercise.Dummy.Memory.{Env, Context, Heap}
use cachercise.Dummy.Lifecycle.{created_context}
use cachercise.Table.{UtHash}
use cachercise.Messages.{IoOut, CreateCacheOut}
use cachercise.Provider.{Cache, Provider, find_cache}
use cachercise.Client.{Handle}
use cachercise.EndToEnd.Created.{
  Serves, new_cache, larger, after, served_create, served_create-creates, larger-Added,
  after-in_use,
}
use cachercise.Cachebench.{verify, Bench, Reach}
use cachercise.Cachebench.Writing.{Ready, Holds}
use cachercise.Cachebench.Verified.{bench-finishes, bench-verifies}

-- A server and an environment for the benchmark: the server can create the cache, and there is room
-- for all the items, in an `int` as well as in the vector.
pub record Hosts {T : Type 0} (hash : UtHash T (Cache Heap)) (env : Env) (uuid : CacheId)
    (p : Provider Heap T) (w : Heap) (total : ℕ) : Type 0 where
  pub serves : Serves hash env uuid p w
  pub addressable : env.vector_max < 2 ^ 63
  pub room : 10 * total ≤ env.vector_max
  pub small : total + 100 ≤ 2 ^ 31

module _ {T : Type 0} (hash : UtHash T (Cache Heap)) (env : Env) (uuid : CacheId)
    (p : Provider Heap T) (w : Heap) (nprocs nr_items : ℕ)
    (hosts : Hosts hash env uuid p w (nr_items * nprocs)) (handle : Handle)
    (named : handle.cache_id ≡ uuid) where
  abbrev pub grown : Provider Heap T
  grown = larger hash env uuid p w hosts.serves

  abbrev pub cache : Cache Heap
  cache = new_cache hash env uuid w

  abbrev pub context : Context
  context = created_context env w (env.parse_ex "{}")

  pub ready : Ready hash grown handle env cache (nr_items * nprocs)
  ready = record {
    found =
        ap (find_cache hash grown) named ∙ (larger-Added hash env uuid p w hosts.serves).present;
    backend = refl;
    addressable = hosts.addressable;
    room = hosts.room;
    small = hosts.small;
  }

  pub holds :
      Holds hash grown handle env cache context nprocs nr_items ready
        (after hash env uuid p w hosts.serves)
        Hoard.init
  unfolding Hoard.init
  holds = record {
    in_use = (after-in_use hash env uuid p w hosts.serves).0;
    stored = (after-in_use hash env uuid p w hosts.serves).1;
    short = omega arith;
  }

  -- What the creation leaves, where it has succeeded.
  made :
      (out : CreateCacheOut) (p' : Provider Heap T) (w' : Heap)
      → served_create hash true uuid out p w none (some "dummy") (some "{}")
        ≡ ok (success, some uuid, p', w')
      → ◌≡◌ {A = Provider Heap T × Heap} (grown, after hash env uuid p w hosts.serves) (p', w')
  made out p' w' run =
      ap (λ (t : ReturnCode × Option CacheId × Provider Heap T × Heap). (t.2, t.3))
        (ok_injective (sym (served_create-creates hash env uuid p w hosts.serves out) ∙ run))

  abbrev pub AllWritten : Bench → Type 0
  AllWritten s = (rank : ℕ) → rank < nprocs → s.written rank ≡ nr_items

  abbrev pub AllSucceeded : Bench → Type 0
  AllSucceeded s = (rank : ℕ) → rank < nprocs → s.returned rank ≡ replicate nr_items 8

  finishes :
      (out : CreateCacheOut) (p' : Provider Heap T) (w' : Heap) (s : Bench)
      → served_create hash true uuid out p w none (some "dummy") (some "{}")
        ≡ ok (success, some uuid, p', w')
      → Reach hash p' handle nprocs nr_items w' s
      → (t : Bench) × Reach hash p' handle nprocs nr_items w' t × AllWritten t × AllSucceeded t
  finishes out p' w' s run reach =
      subst
        (λ (q : Provider Heap T × Heap).
          Reach hash q.0 handle nprocs nr_items q.1 s
          → (t : Bench) × Reach hash q.0 handle nprocs nr_items q.1 t
            × AllWritten t
            × AllSucceeded t)
        (made out p' w' run)
        (bench-finishes hash grown handle env cache context nprocs nr_items ready _ Hoard.init s
          holds)
        reach

  -- On a server that was sound and without a token and has created the cache of the benchmark, and where
  -- all the items fit in an `int`, and ten times over in the vector, of a limit below 2 ^ 63,
  -- when all the processes have written all their items, in whatever order they have taken turns, the
  -- reads of rank 0 end, and find no error.
  pub served_create-verify :
      (out : CreateCacheOut) (p' : Provider Heap T) (w' : Heap) (s : Bench) (stacks : ℕ → IoOut × ℕ)
      → served_create hash true uuid out p w none (some "dummy") (some "{}")
        ≡ ok (success, some uuid, p', w')
      → Reach hash p' handle nprocs nr_items w' s
      → AllWritten s
      → verify hash p' handle stacks nprocs nr_items s.memory ≡ ok 0
  served_create-verify out p' w' s stacks run reach done =
      subst
        (λ (q : Provider Heap T × Heap).
          Reach hash q.0 handle nprocs nr_items q.1 s
          → verify hash q.0 handle stacks nprocs nr_items s.memory ≡ ok 0)
        (made out p' w' run)
        (λ r.
          bench-verifies hash grown handle env cache context nprocs nr_items ready _ Hoard.init s
            stacks holds r done)
        reach

  -- On a server that was sound and without a token and has created the cache of the benchmark, and where
  -- all the items fit in an `int`, and ten times over in the vector, of a limit below 2 ^ 63,
  -- whatever order the processes have gone in so far, they can go on until all of them have written
  -- all their items; then every write has returned 8, the number of bytes written, and the reads of
  -- rank 0 find every item.
  pub served_create-finishes :
      (out : CreateCacheOut) (p' : Provider Heap T) (w' : Heap) (s : Bench)
      → served_create hash true uuid out p w none (some "dummy") (some "{}")
        ≡ ok (success, some uuid, p', w')
      → Reach hash p' handle nprocs nr_items w' s
      → (t : Bench) × Reach hash p' handle nprocs nr_items w' t
        × AllWritten t
        × AllSucceeded t
        × ((stacks : ℕ → IoOut × ℕ) → verify hash p' handle stacks nprocs nr_items t.memory ≡ ok 0)
  served_create-finishes out p' w' s run reach =
      let (t, reach', all, returned) = finishes out p' w' s run reach in
      (t, reach', all, returned, λ stacks. served_create-verify out p' w' t stacks run reach' all)
