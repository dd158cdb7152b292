-- ===== src/Client/Lifetime.antt =====
-- The lifetime of a cache handle of src/client.c, from its creation to its last release.
use cachercise.Base.{
  ℕ, zero, suc, ◌+◌, ◌-◌, ◌^◌, ◌<◌, ◌≡◌, refl, true, false, ◌≢◌, none, some, List, [], ◌∷◌,
  replicate, arith, ◌==◌,
}
use cachercise.Base.Run.{Run, ok, ◌>>=◌}
use cachercise.Common.{ReturnCode, success, CacheId, Ptr, null, u64}
use cachercise.Client.{
  Handle, Client, find_handle, free_handle, cache_handle_create, cache_handle_release,
}
use cachercise.Client.Handles.{IsClient, Recounted, release-Recounted, Recounted-trans}
use cachercise.Client.Freeing.{Freed, release-Freed, Recounted-Freed}
use mathlib.Core.Path.{subst}

-- `n` calls of cachercise_cache_handle_release, with the codes that they return.
pub releases : ℕ → Ptr → Client → Run (List ReturnCode × Client)
releases zero h c = ok ([], c)
releases (suc n) h c = do
  (ret, c') ← cache_handle_release h c
  (rets, c'') ← releases n h c'
  ok (ret ∷ rets, c'')

-- On a well-formed client a handle with `n` references, one or more, is freed by `n` releases: each
-- returns CACHERCISE_SUCCESS, it cannot be found any more, its address has been given back once, and the other handles
-- are as they were.
pub releases-Freed :
    (n : ℕ) (h : Ptr) (v : Handle) (c : Client)
    → IsClient c
    → find_handle h c.handles ≡ some v
    → v.refcount ≡ n
    → 0 < n
    → (c' : Client) × (releases n h c ≡ ok (replicate n success, c')) × Freed h v c c'
unfolding releases
releases-Freed zero h v c i e r p = absurd (omega arith)
releases-Freed (suc zero) h v c i e r p =
    let (c', run, f) = release-Freed h v c i e r in (c', rw run refl, f)
releases-Freed (suc (suc n)) h v c i e r p =
    let (c₁, run, k) = release-Recounted h v c i e (omega arith) in
    let (c', run', f) =
      releases-Freed (suc n) h (record v { refcount = v.refcount - 1 }) c₁ k.client k.handle
        (omega arith) (omega arith) in
    (c', rw run (rw run' refl), Recounted-Freed h v (v.refcount - 1) c c₁ c' k f)

-- On a well-formed client fewer releases of a handle than it has references, one or more, return
-- CACHERCISE_SUCCESS each and leave it in use, with the references that are left.
pub releases-in_use :
    (n : ℕ) (h : Ptr) (v : Handle) (c : Client)
    → IsClient c
    → find_handle h c.handles ≡ some v
    → suc n < v.refcount
    → (c' : Client) × (releases (suc n) h c ≡ ok (replicate (suc n) success, c'))
      × Recounted h v (v.refcount - suc n) c c'
unfolding releases
releases-in_use zero h v c i e r =
    let (c₁, run, k) = release-Recounted h v c i e r in (c₁, rw run refl, k)
releases-in_use (suc n) h v c i e r =
    let (c₁, run, k) = release-Recounted h v c i e (omega arith) in
    let (c', run', k') =
      releases-in_use n h (record v { refcount = v.refcount - 1 }) c₁ k.client k.handle
        (omega arith) in
    let left : v.refcount - 1 - suc n ≡ v.refcount - suc (suc n) = omega arith in
    (
      c',
      rw run (rw run' refl),
      Recounted-trans h v (v.refcount - 1) (v.refcount - suc (suc n)) c c₁ c' k
          (subst (λ m. Recounted h (record v { refcount = v.refcount - 1 }) m c₁ c') left k'),
    )

-- Creating a handle at an address that is not in use makes a client that is well formed, in which the
-- handle is found with one reference; and releasing it again leaves the client as it was, but for
-- the address that has been given back.
pub create-release :
    (h : Ptr) (addr provider_id : ℕ) (id : CacheId) (c : Client)
    → IsClient c
    → h ≢ null
    → find_handle h c.handles ≡ none
    → (c' : Client) × (cache_handle_create h (some addr) provider_id id c ≡ (success, h, c'))
      × IsClient c'
      × (find_handle h c'.handles
          ≡ some (record { addr = addr; provider_id = provider_id; refcount = 1; cache_id = id }))
      × (cache_handle_release h c' ≡ ok (success, record c { freed_addrs = addr ∷ c.freed_addrs }))
unfolding cache_handle_create cache_handle_release find_handle free_handle
create-release h addr provider_id id c i n a =
    let nz : (h == null) ≡ false = ground arith in
    let self : (h == h) ≡ true = ground arith in
    let less : u64 (u64 (c.num_cache_handles + 1) + 2 ^ 64 - 1) ≡ c.num_cache_handles =
      omega (arith, i.counted) in
    (
      record c {
        num_cache_handles = u64 (c.num_cache_handles + 1);
        handles =
            (h, record { addr = addr; provider_id = provider_id; refcount = 1; cache_id = id })
            ∷ c.handles;
      },
      rw nz refl,
      record {
        counted = omega (arith, i.counted);
        referred = (n, omega arith, omega arith, a, i.referred);
      },
      rw self refl,
      rw (nz, self, less) refl,
    )
