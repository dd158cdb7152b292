-- ===== src/Client/Handles.antt =====
-- The reference count of a cache handle of src/client.c.
use cachercise.Base.{
  ℕ, suc, ◌+◌, ◌-◌, ◌%◌, ◌^◌, ◌<◌, ◌≡◌, ◌≢◌, refl, sym, false, none, some, List, [], ◌∷◌, arith,
  ◌==◌, if◌then◌else◌, length, ap, ◌∙◌, inl, inr, Bool-cases,
}
use cachercise.Base.Run.{ok}
use cachercise.Common.{success, Ptr, null, u64}
use cachercise.Client.{
  Handle, Client, find_handle, set_handle, free_handle, cache_handle_ref_incr, cache_handle_release,
}

-- Every handle has an address of its own that is not NULL, and is referred to.
abbrev pub AllReferred : List (Ptr × Handle) → Type 0
AllReferred [] = Unit {0}
AllReferred ((q, v) ∷ hs) =
    (q ≢ null)
    × (0 < v.refcount)
    × (v.refcount < 2 ^ 64)
    × (find_handle q hs ≡ none)
    × AllReferred hs

pub record IsClient (c : Client) : Type 0 where
  pub counted : c.num_cache_handles ≡ length c.handles % 2 ^ 64
  pub referred : AllReferred c.handles

length-set_handle :
    (h : Ptr) (v : Handle) (hs : List (Ptr × Handle)) → length (set_handle h v hs) ≡ length hs
unfolding set_handle
length-set_handle h v [] = refl
length-set_handle h v ((q, u) ∷ hs) = ground (arith, length-set_handle h v hs)

find_handle-set_handle :
    (h j : Ptr) (v : Handle) (hs : List (Ptr × Handle))
    → find_handle j (set_handle h v hs) ≡ (
        if h == j
        then (elim (find_handle j hs) [ none ↦ none | some u ↦ some v ])
        else find_handle j hs)
unfolding find_handle set_handle
find_handle-set_handle h j v [] = ground arith
find_handle-set_handle h j v ((q, u) ∷ hs) = ground (arith, find_handle-set_handle h j v hs)

pub find_handle-free_ne :
    (h j : Ptr) (hs : List (Ptr × Handle))
    → (h == j) ≡ false
    → find_handle j (free_handle h hs) ≡ find_handle j hs
unfolding find_handle free_handle
find_handle-free_ne h j [] n = refl
find_handle-free_ne h j ((q, u) ∷ hs) n = ground (arith, find_handle-free_ne h j hs)

pub find_handle-free_self :
    (h : Ptr) (hs : List (Ptr × Handle)) → AllReferred hs → find_handle h (free_handle h hs) ≡ none
unfolding find_handle free_handle
find_handle-free_self h [] a = refl
find_handle-free_self h ((q, u) ∷ hs) (z, p, b, n, a) =
    ground (arith, find_handle-free_self h hs a, ap (λ (i : ℕ). find_handle i hs))

pub length-free_handle :
    (h : Ptr) (v : Handle) (hs : List (Ptr × Handle))
    → find_handle h hs ≡ some v
    → length hs ≡ suc (length (free_handle h hs))
unfolding find_handle free_handle
length-free_handle h v [] e = cc
length-free_handle h v ((q, u) ∷ hs) e = ground (arith, length-free_handle h v hs)

find_none-free :
    (h j : Ptr) (hs : List (Ptr × Handle))
    → find_handle j hs ≡ none
    → find_handle j (free_handle h hs) ≡ none
unfolding find_handle free_handle
find_none-free h j [] e = refl
find_none-free h j ((q, u) ∷ hs) e = ground (arith, find_none-free h j hs)

pub free-AllReferred :
    (h : Ptr) (hs : List (Ptr × Handle)) → AllReferred hs → AllReferred (free_handle h hs)
unfolding free_handle
free-AllReferred h [] a = tt
free-AllReferred h ((q, u) ∷ hs) (z, p, b, n, a) = elim (Bool-cases (q == h)) [
  | inl e ↦ rw e a
  | inr e ↦ rw e (z, p, b, find_none-free h q hs n, free-AllReferred h hs a)
]

find_none-set :
    (h j : Ptr) (v : Handle) (hs : List (Ptr × Handle))
    → find_handle j hs ≡ none
    → find_handle j (set_handle h v hs) ≡ none
unfolding find_handle set_handle
find_none-set h j v [] e = refl
find_none-set h j v ((q, u) ∷ hs) e = ground (arith, find_none-set h j v hs)

set-AllReferred :
    (h : Ptr) (v : Handle) (hs : List (Ptr × Handle))
    → 0 < v.refcount
    → v.refcount < 2 ^ 64
    → AllReferred hs
    → AllReferred (set_handle h v hs)
unfolding set_handle
set-AllReferred h v [] x y a = tt
set-AllReferred h v ((q, u) ∷ hs) x y (z, p, b, n, a) = elim (Bool-cases (q == h)) [
  | inl e ↦ rw e (z, x, y, n, a)
  | inr e ↦ rw e (z, p, b, find_none-set h q v hs n, set-AllReferred h v hs x y a)
]

pub find-referred :
    (h : Ptr) (v : Handle) (hs : List (Ptr × Handle))
    → AllReferred hs
    → find_handle h hs ≡ some v
    → (h ≢ null) × (0 < v.refcount) × (v.refcount < 2 ^ 64)
unfolding find_handle
find-referred h v [] a e = cc
find-referred h v ((q, u) ∷ hs) (z, p, b, n, a) e = elim (Bool-cases (q == h)) [
  | inl t ↦ (λ i. z (ground arith), ground arith, ground arith)
  | inr t ↦ find-referred h v hs a (rw t at e)
]

-- The outcome of changing a reference count from `v.refcount` to `n`.
pub record Recounted (h : Ptr) (v : Handle) (n : ℕ) (c c' : Client) : Type 0 where
  pub client : IsClient c'
  pub handle : find_handle h c'.handles ≡ some (record v { refcount = n })
  pub others : (j : Ptr) → (h == j) ≡ false → find_handle j c'.handles ≡ find_handle j c.handles
  pub same_length : length c'.handles ≡ length c.handles
  pub same_count : c'.num_cache_handles ≡ c.num_cache_handles
  pub same_addrs : c'.freed_addrs ≡ c.freed_addrs

set_handle-Recounted :
    (h : Ptr) (v : Handle) (n : ℕ) (c : Client)
    → IsClient c
    → find_handle h c.handles ≡ some v
    → 0 < n
    → n < 2 ^ 64
    → Recounted h v n c (record c { handles = set_handle h (record v { refcount = n }) c.handles })
set_handle-Recounted h v n c i e a b = record {
  client = record {
    counted =
        i.counted
        ∙ ap (λ (k : ℕ). k % 2 ^ 64)
            (sym (length-set_handle h (record v { refcount = n }) c.handles));
    referred = set-AllReferred h (record v { refcount = n }) c.handles a b i.referred;
  };
  handle = ground (arith, find_handle-set_handle h h (record v { refcount = n }) c.handles);
  others = λ j t. ground (arith, find_handle-set_handle h j (record v { refcount = n }) c.handles);
  same_length = length-set_handle h (record v { refcount = n }) c.handles;
  same_count = refl;
  same_addrs = refl;
}

pub Recounted-trans :
    (h : Ptr) (v : Handle) (m n : ℕ) (c c' c'' : Client)
    → Recounted h v m c c'
    → Recounted h (record v { refcount = m }) n c' c''
    → Recounted h v n c c''
Recounted-trans h v m n c c' c'' r s = record {
  client = s.client;
  handle = s.handle;
  others = λ j t. s.others j t ∙ r.others j t;
  same_length = s.same_length ∙ r.same_length;
  same_count = s.same_count ∙ r.same_count;
  same_addrs = s.same_addrs ∙ r.same_addrs;
}

-- On a well-formed client a new reference to a handle in use is counted, if the count is not at its
-- largest, and the other handles are as they were.
pub ref_incr-Recounted :
    (h : Ptr) (v : Handle) (c : Client)
    → IsClient c
    → find_handle h c.handles ≡ some v
    → v.refcount + 1 < 2 ^ 64
    → (c' : Client) × (cache_handle_ref_incr h c ≡ ok (success, c'))
      × Recounted h v (v.refcount + 1) c c'
unfolding cache_handle_ref_incr
ref_incr-Recounted h v c i e b =
    let (z, p, l) = find-referred h v c.handles i.referred e in
    let nz : (h == null) ≡ false = ground arith in
    let n : u64 (v.refcount + 1) ≡ v.refcount + 1 = omega arith in
    (
      record c { handles = set_handle h (record v { refcount = v.refcount + 1 }) c.handles },
      rw (nz, e, n),
      set_handle-Recounted h v (v.refcount + 1) c i e (omega arith) b,
    )

-- Giving up one of several references to a handle is counted, and frees nothing.
pub release-Recounted :
    (h : Ptr) (v : Handle) (c : Client)
    → IsClient c
    → find_handle h c.handles ≡ some v
    → 1 < v.refcount
    → (c' : Client) × (cache_handle_release h c ≡ ok (success, c'))
      × Recounted h v (v.refcount - 1) c c'
unfolding cache_handle_release
release-Recounted h v c i e b =
    let (z, p, l) = find-referred h v c.handles i.referred e in
    let nz : (h == null) ≡ false = ground arith in
    let n : u64 (v.refcount + 2 ^ 64 - 1) ≡ v.refcount - 1 = omega arith in
    let more : (v.refcount - 1 == 0) ≡ false = ground arith in
    (
      record c { handles = set_handle h (record v { refcount = v.refcount - 1 }) c.handles },
      rw (nz, e, n, more),
      set_handle-Recounted h v (v.refcount - 1) c i e (omega arith) (omega arith),
    )
