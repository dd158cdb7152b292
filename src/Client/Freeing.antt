-- ===== src/Client/Freeing.antt =====
-- Giving up the last reference to a cache handle of src/client.c.
use cachercise.Base.{
  ℕ, suc, ◌+◌, ◌-◌, ◌^◌, ◌≡◌, refl, sym, false, none, some, ◌∷◌, arith, ◌==◌, length, ap, ◌∙◌,
}
use cachercise.Base.Run.{ok}
use cachercise.Common.{success, Ptr, null, u64}
use cachercise.Client.{Handle, Client, find_handle, free_handle, cache_handle_release}
use cachercise.Client.Handles.{
  IsClient, Recounted, find-referred, free-AllReferred, length-free_handle, find_handle-free_self,
  find_handle-free_ne,
}

-- The handle is freed: it cannot be found, its address has been given back, and the client counts
-- one handle less.
pub record Freed (h : Ptr) (v : Handle) (c c' : Client) : Type 0 where
  pub client : IsClient c'
  pub absent : find_handle h c'.handles ≡ none
  pub others : (j : Ptr) → (h == j) ≡ false → find_handle j c'.handles ≡ find_handle j c.handles
  pub one_less : length c.handles ≡ suc (length c'.handles)
  pub addr_freed : c'.freed_addrs ≡ v.addr ∷ c.freed_addrs

-- Giving up the last reference frees the handle and its address.
pub release-Freed :
    (h : Ptr) (v : Handle) (c : Client)
    → IsClient c
    → find_handle h c.handles ≡ some v
    → v.refcount ≡ 1
    → (c' : Client) × (cache_handle_release h c ≡ ok (success, c')) × Freed h v c c'
unfolding cache_handle_release
release-Freed h v c i e b =
    let (z, p, l) = find-referred h v c.handles i.referred e in
    let nz : (h == null) ≡ false = ground arith in
    let n : u64 (v.refcount + 2 ^ 64 - 1) ≡ 0 = omega arith in
    let less = length-free_handle h v c.handles e in
    (
      record c {
        num_cache_handles = u64 (c.num_cache_handles + 2 ^ 64 - 1);
        handles = free_handle h c.handles;
        freed_addrs = v.addr ∷ c.freed_addrs;
      },
      rw (nz, e, n),
      record {
        client = record {
          counted = omega (arith, i.counted);
          referred = free-AllReferred h c.handles i.referred;
        };
        absent = find_handle-free_self h c.handles i.referred;
        others = λ j t. find_handle-free_ne h j c.handles t;
        one_less = less;
        addr_freed = refl;
      },
    )

pub Recounted-Freed :
    (h : Ptr) (v : Handle) (n : ℕ) (c c' c'' : Client)
    → Recounted h v n c c'
    → Freed h (record v { refcount = n }) c' c''
    → Freed h v c c''
Recounted-Freed h v n c c' c'' r f = record {
  client = f.client;
  absent = f.absent;
  others = λ j t. f.others j t ∙ r.others j t;
  one_less = sym r.same_length ∙ f.one_less;
  addr_freed = f.addr_freed ∙ ap (◌∷◌ v.addr) r.same_addrs;
}
