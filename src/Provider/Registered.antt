-- ===== src/Provider/Registered.antt =====
-- cachercise_provider_register_backend of src/provider.c: a backend that is added to a provider.
use text.Mathlib.Text.{◌==◌ as str_eq}
use cachercise.Base.{
  ℕ, ◌+◌, ◌*◌, ◌≤◌, ◌≡◌, refl, sym, ap, ◌∙◌, Bool, false, String, Option, none, some, List, [], ◌∷◌,
  ◌++◌, arith, ltb, if◌then◌else◌, length, length-append, Bool-cases, inl, inr,
}
use cachercise.Base.Run.{ok, ◌>>=◌}
use cachercise.Common.{success, Ptr}
use cachercise.Backend.{BackendImpl, Contract}
use cachercise.Table.{UtHash}
use cachercise.Provider.Backends.{first_named, find_backend_impl-first}
use cachercise.Provider.Lifecycle.{register_backend}
use cachercise.Provider.Sound.{IsSound, AllContract}
use cachercise.Provider.{Cache, Provider, find_backend_impl, add_backend_impl}

-- The backend of that name, or else `b`, if it has the name.
abbrev pub or_last :
    {W : Type 0} → String → BackendImpl W → Option (BackendImpl W) → Option (BackendImpl W)
or_last name b none = if str_eq name b.name then some b else none
or_last name b (some c) = some c

first_named-append :
    {W : Type 0} (name : String) (bs : List (BackendImpl W)) (b : BackendImpl W)
    → first_named name (bs ++ b ∷ []) ≡ or_last name b (first_named name bs)
unfolding first_named
first_named-append name [] b = refl
first_named-append name (c ∷ bs) b = elim (Bool-cases (str_eq name c.name)) [
  | inl t ↦ rw t refl
  | inr t ↦ rw t (first_named-append name bs b)
]

module _ {W T : Type 0} (hash : UtHash T (Cache W)) (IsHeap : W → Type 0)
    (live : W → Ptr → Bool) where
  AllContract-append :
      (bs : List (BackendImpl W)) (b : BackendImpl W)
      → AllContract hash IsHeap live bs
      → Contract IsHeap live b
      → AllContract hash IsHeap live (bs ++ b ∷ [])
  AllContract-append [] b h k = (k, tt)
  AllContract-append (c ∷ bs) b h k = (h.0, AllContract-append bs b h.1 k)

  -- On a sound provider, where `realloc` gives a block with eight usable bytes for each backend, and with a
  -- backend that keeps its contract, cachercise_provider_register_backend succeeds and the provider stays
  -- sound. From then on a search for a name finds the backend that it found before, and the new one
  -- where it found none and the name is that of the new one.
  pub register_backend-found :
      (usable : ℕ → Option ℕ) (p : Provider W T) (w : W) (b : BackendImpl W) (n : ℕ)
      → IsSound hash IsHeap live p w
      → Contract IsHeap live b
      → usable (p.num_backend_types + 1) ≡ some n
      → (p.num_backend_types + 1) * 8 ≤ n
      → (p' : Provider W T) × (register_backend usable p b ≡ ok (success, p'))
        × IsSound hash IsHeap live p' w
        × ((name : String)
            → find_backend_impl p' (some name)
              ≡ (find_backend_impl p (some name) >>= λ found. ok (or_last name b found)))
  unfolding register_backend add_backend_impl
  register_backend-found usable p w b n s k u l =
      let enough : ltb n ((p.num_backend_types + 1) * 8) ≡ false = ground arith in
      let p' : Provider W T = record p {
        num_backend_types = p.num_backend_types + 1;
        backend_types = p.backend_types ++ b ∷ [];
      } in
      let counted : p'.num_backend_types ≡ length p'.backend_types =
        omega (arith, s.typed, length-append p.backend_types (b ∷ [])) in
      (
        p',
        rw (u, enough) refl,
        record {
          heap = s.heap;
          counted = s.counted;
          held = s.held;
          typed = counted;
          backends = AllContract-append p.backend_types b s.backends k;
        },
        λ name.
            find_backend_impl-first p' name counted
            ∙ ap ok (first_named-append name p.backend_types b)
            ∙ sym (
                ap (λ f. f >>= λ found. ok (or_last name b found))
                  (find_backend_impl-first p name s.typed)),
      )
