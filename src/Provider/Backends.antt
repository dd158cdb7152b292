-- ===== src/Provider/Backends.antt =====
-- `find_backend_impl` of src/provider.c, as a search in the list of backends.
use text.Mathlib.Text.{◌==◌ as str_eq}
use cachercise.Base.{
  ℕ, zero, suc, ◌≡◌, refl, String, Option, none, some, List, [], ◌∷◌, ◌∙◌, if◌then◌else◌, length,
  Bool-cases, inl, inr,
}
use cachercise.Base.Run.{ok}
use cachercise.Backend.{BackendImpl}
use cachercise.Provider.{Provider, strcmp_eq, find_loop, find_backend_impl}

module _ {W : Type 0} where
  -- The first backend of that name.
  unfoldable pub first_named : String → List (BackendImpl W) → Option (BackendImpl W)
  first_named name [] = none
  first_named name (b ∷ bs) = if str_eq name b.name then some b else first_named name bs

  find_loop-suc :
      (k i : ℕ) (name : Option String) (b : BackendImpl W) (bs : List (BackendImpl W))
      → find_loop k (suc i) name (b ∷ bs) ≡ find_loop k i name bs
  unfolding find_loop
  find_loop-suc zero i name b bs = refl
  find_loop-suc (suc k) i name b bs = rw (find_loop-suc k (suc i) name b bs) refl

  find_loop-first :
      (name : String) (bs : List (BackendImpl W))
      → find_loop (length bs) 0 (some name) bs ≡ ok (first_named name bs)
  unfolding find_loop strcmp_eq first_named
  find_loop-first name [] = refl
  find_loop-first name (b ∷ bs) = elim (Bool-cases (str_eq name b.name)) [
    | inl t ↦ rw t refl
    | inr t ↦
        let rest = find_loop-suc (length bs) 0 (some name) b bs ∙ find_loop-first name bs in
        rw (t, rest) refl
  ]

  -- Where the provider counts the backends of its list, the search for a name that is sent ends, with
  -- the first backend of that name, or none if there is no such backend.
  pub find_backend_impl-first :
      {T : Type 0} (p : Provider W T) (name : String)
      → p.num_backend_types ≡ length p.backend_types
      → find_backend_impl p (some name) ≡ ok (first_named name p.backend_types)
  unfolding find_backend_impl
  find_backend_impl-first p name e = rw e (find_loop-first name p.backend_types)
