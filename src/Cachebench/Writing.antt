-- ===== src/Cachebench/Writing.antt =====
-- The writes of the benchmark, in any order of the processes.
use cachercise.Base.{
  ℕ, suc, Bool, true, false, List, ◌∷◌, replicate, ◌+◌, ◌*◌, ◌^◌, ◌<◌, ◌≤◌, ◌≡◌, refl, sym, ap, ◌∙◌,
  some, arith, length, get_elem?, ◌==◌, if◌then◌else◌, Bool-cases, inl, inr, ◌⊎◌,
}
use mathlib.Core.Path.{subst}
use native.Mathlib.Decide.{dec_lt}
use cachercise.Base.Run.{ok_injective, ok}
use cachercise.Hoard.{Hoard}
use cachercise.Dummy.Memory.{Env, Context, Heap}
use cachercise.Dummy.{dummy_backend}
use cachercise.Dummy.Io.{after_write}
use cachercise.Dummy.Transfers.{contexts-after_write, hoards-after_write}
use cachercise.Dummy.Items.{Stored, io-Stored}
use cachercise.Table.{UtHash}
use cachercise.Messages.{IoOut}
use cachercise.Provider.{Cache, Provider, find_cache}
use cachercise.Client.{Handle}
use cachercise.Client.Bytes.{word, bytes, word-bytes, length-bytes}
use cachercise.EndToEnd.{served_write}
use cachercise.Cachebench.{place, int, write_item, Bench, Step, wrote, Reach, start, next}
use cachercise.Cachebench.Places.{place_lt}

-- The benchmark's cache: the provider finds it, it is the dummy backend's, and there is room for
-- all the items in an `int` and in the vector.
pub record Ready {T : Type 0} (hash : UtHash T (Cache Heap)) (p : Provider Heap T) (handle : Handle)
    (env : Env) (r : Cache Heap) (total : ℕ) : Type 0 where
  pub found : find_cache hash p handle.cache_id ≡ some r
  pub backend : r.fn ≡ dummy_backend env
  pub addressable : env.vector_max < 2 ^ 63
  pub room : 10 * total ≤ env.vector_max
  pub small : total + 100 ≤ 2 ^ 31

pub int_ok : (n : ℕ) → n < 2 ^ 31 → int n ≡ ok n
unfolding int
int_ok n l = ground arith

module _ {T : Type 0} (hash : UtHash T (Cache Heap)) (p : Provider Heap T) (handle : Handle)
    (env : Env) (r : Cache Heap) (c : Context) (nprocs nr_items : ℕ)
    (ready : Ready hash p handle env r (nr_items * nprocs)) where
  -- The cache holds a hoard of no more than four times the number of items.
  pub record Holds (w : Heap) (h : Hoard) : Type 0 where
    pub in_use : w.contexts r.ctx ≡ some c
    pub stored : w.hoards c.h ≡ some h
    pub short : length h ≤ 4 * (nr_items * nprocs)

  -- Every item that has been written is in the hoard, and every write has returned 8, its size.
  pub record Filled (s : Bench) : Type 0 where
    pub sizes : (rank : ℕ) → s.returned rank ≡ replicate (s.written rank) 8
    pub hoard : Hoard
    pub holds : Holds s.memory hoard
    pub counts : (rank : ℕ) → s.written rank ≤ nr_items
    pub items :
        (rank i : ℕ)
        → rank < nprocs
        → i < s.written rank
        → get_elem? hoard (place nprocs rank i) ≡ some (place nprocs rank i + 100)

  pub write_item_ok :
      (rank i : ℕ) (out : IoOut) (stack : ℕ) (w : Heap) (h : Hoard)
      → rank < nprocs
      → i < nr_items
      → Holds w h
      → (h' : Hoard) × (write_item hash p handle nprocs rank i out stack w
          ≡ ok (8, after_write c h' w))
        × Stored h (place nprocs rank i) (place nprocs rank i + 100) h'
  unfolding write_item
  write_item_ok rank i out stack w h a b holds =
      let l = place_lt nprocs nr_items rank i a b in
      let v = place nprocs rank i + 100 in
      let small = ready.small in
      let spelt : word (bytes 8 v) ≡ v = word-bytes 8 v (omega arith) in
      let (h', run, s) =
        io-Stored env r.ctx c w holds.in_use h (place nprocs rank i) (word (bytes 8 v)) holds.stored
          ready.addressable (omega (arith, holds.short, ready.room)) in
      let served =
        served_write hash env p r handle ready.found ready.backend out stack (bytes 8 v)
          (place nprocs rank i) w (after_write c h' w) (length-bytes 8 v) run in
      (
        h',
        rw (int_ok v (omega arith), int_ok (place nprocs rank i) (omega arith), served) refl,
        subst (λ u. Stored h (place nprocs rank i) u h') spelt s,
      )

  Stored-short :
      (h h' : Hoard) (offset v : ℕ)
      → Stored h offset v h'
      → offset < nr_items * nprocs
      → length h ≤ 4 * (nr_items * nprocs)
      → length h' ≤ 4 * (nr_items * nprocs)
  Stored-short h h' offset v s a b = ground (arith, s.size)

  Stored-here :
      (h h' : Hoard) (o j : ℕ) → Stored h o (o + 100) h' → o ≡ j → get_elem? h' j ≡ some (j + 100)
  Stored-here h h' o j s e = subst (λ k. get_elem? h' k ≡ some (k + 100)) e s.here

  -- An item that is in the hoard stays there, since what goes to its place is the item itself.
  Stored-item :
      (h h' : Hoard) (o j : ℕ)
      → Stored h o (o + 100) h'
      → get_elem? h j ≡ some (j + 100)
      → get_elem? h' j ≡ some (j + 100)
  Stored-item h h' o j s e = elim (Bool-cases (o == j)) [
    | inl t ↦ Stored-here h h' o j s (ground arith)
    | inr n ↦ s.others j (j + 100) n e
  ]

  one_more :
      (b : Bool) (v n : ℕ) (vs : List ℕ)
      → vs ≡ replicate n v
      → (if b then v ∷ vs else vs) ≡ replicate (if b then n + 1 else n) v
  one_more true v n vs e = let next : n + 1 ≡ suc n = omega arith in rw (next, e) refl
  one_more false v n vs e = e

  abbrev pub after : Bench → (rank : ℕ) → Hoard → Bench
  after s rank h' = record {
    written = λ q. if q == rank then s.written q + 1 else s.written q;
    returned = λ q. if q == rank then 8 ∷ s.returned q else s.returned q;
    memory = after_write c h' s.memory;
  }

  -- An item that is written after the step was so before, or is the one of the step.
  old_or_new :
      (s : Bench) (rank : ℕ) (h' : Hoard) (q i : ℕ)
      → i < (after s rank h').written q
      → (i < s.written q) ⊎ (place nprocs rank (s.written rank) ≡ place nprocs q i)
  old_or_new s rank h' q i l = elim (dec_lt i (s.written q)) [
    | yes y ↦ inl y
    | no n ↦
        let q≡rank : q ≡ rank = ground arith in
        let same : s.written q ≡ s.written rank = ap s.written q≡rank in
        let i≡ : i ≡ s.written rank = ground arith in inr (rw (i≡, q≡rank) refl)
  ]

  pub after-Filled :
      (s : Bench) (rank : ℕ) (h' : Hoard)
      → (f : Filled s) → rank < nprocs
      → s.written rank < nr_items
      → Stored f.hoard
          (place nprocs rank (s.written rank))
          (place nprocs rank (s.written rank) + 100)
          h'
      → Filled (after s rank h')
  after-Filled s rank h' f a b st =
      let o = place nprocs rank (s.written rank) in
      record {
        hoard = h';
        sizes = λ q. one_more (q == rank) 8 (s.written q) (s.returned q) (f.sizes q);
        holds = record {
          in_use = contexts-after_write c h' s.memory r.ctx f.holds.in_use;
          stored = hoards-after_write c h' s.memory;
          short =
              Stored-short f.hoard h' o (o + 100) st
                (place_lt nprocs nr_items rank (s.written rank) a b) f.holds.short;
        };
        counts = λ q. ground (arith, f.counts q);
        items = λ q i l k. elim (old_or_new s rank h' q i k) [
          | inl y ↦ Stored-item f.hoard h' o (place nprocs q i) st (f.items q i l y)
          | inr e ↦ Stored-here f.hoard h' o (place nprocs q i) st e
        ];
      }

  -- Whichever process goes next, the items written stay in the hoard.
  pub Step-Filled : {s t : Bench} → Step hash p handle nprocs nr_items s t → Filled s → Filled t
  Step-Filled {s} (wrote rank out stack ret w' a b e) f =
      let (h', run, st) =
        write_item_ok rank (s.written rank) out stack s.memory f.hoard a b f.holds in
      subst
        (λ (x : ℕ × Heap). Filled (record {
          written = λ q. if q == rank then s.written q + 1 else s.written q;
          returned = λ q. if q == rank then x.0 ∷ s.returned q else s.returned q;
          memory = x.1;
        }))
        (ok_injective (sym run ∙ e)) (after-Filled s rank h' f a b st)

  pub Reach-Filled :
      (w : Heap) (h : Hoard) {s : Bench}
      → Holds w h
      → Reach hash p handle nprocs nr_items w s
      → Filled s
  Reach-Filled w h holds start = record {
    hoard = h;
    sizes = λ rank. refl;
    holds = holds;
    counts = λ rank. omega arith;
    items = λ rank i a b. absurd (omega arith);
  }
  Reach-Filled w h holds (next r st) = Step-Filled st (Reach-Filled w h holds r)

  -- A process that has items left can always write the next one.
  pub can_write :
      (s : Bench) (rank : ℕ) (out : IoOut) (stack : ℕ)
      → Filled s
      → rank < nprocs
      → s.written rank < nr_items
      → (m : Heap) × Step hash p handle nprocs nr_items s (record {
        written = λ q. if q == rank then s.written q + 1 else s.written q;
        returned = λ q. if q == rank then 8 ∷ s.returned q else s.returned q;
        memory = m;
      })
  can_write s rank out stack f a b =
      let (h', run, st) =
        write_item_ok rank (s.written rank) out stack s.memory f.hoard a b f.holds in
      (after_write c h' s.memory, wrote rank out stack 8 (after_write c h' s.memory) a b run)
