-- ===== src/Cachebench/Config/Keys.antt =====
-- The keys of the benchmark's configuration.
use mathlib.Core.Option.{some-injective, none-ne-some}
use text.Mathlib.Text.{◌==◌ as str_eq}
use cachercise.Base.{
  ℕ, ◌≡◌, refl, sym, ap, ◌∙◌, Bool, false, String, none, some, Bool-cases, Option-cases, inl, inr,
  ◌⊎◌,
}
use cachercise.Base.Int.{ℤ, pos}
use cachercise.Cachebench.Config.{
  int, string, boolean, other, Json, Files, config_has, override_string, override_bool,
  override_integer, has_or_create, parse_json, dump_json,
}

module _ {O : Type 0} (js : Json O) where
  -- An integer or none is what `has_or_create` goes on with.
  value_cases :
      (key : String) (value : ℕ) (config : O)
      → (js.get key config ≡ none)
        ⊎ (((n : ℤ) × (js.get key config ≡ some (int n)))
            ⊎ (has_or_create js key value config ≡ none))
  unfolding has_or_create
  value_cases key value config = elim (Option-cases (js.get key config)) [
    | inl e ↦ inl e
    | inr (int n, e) ↦ inr (inl (n, e))
    | inr (string t, e) ↦ inr (inr (rw (e, has_or_create) refl))
    | inr (boolean b, e) ↦ inr (inr (rw (e, has_or_create) refl))
    | inr (other, e) ↦ inr (inr (rw (e, has_or_create) refl))
  ]

  -- What `has_or_create` leaves under its key and under the others, where it does not return.
  has_or_create-get :
      (key : String) (value : ℕ) (config out : O)
      → has_or_create js key value config ≡ some out
      → ((n : ℤ) × (js.get key out ≡ some (int n))
          × ((js.get key config ≡ some (int n)) ⊎ ((js.get key config ≡ none) × (n ≡ pos value))))
        × ((j : String) → str_eq key j ≡ false → js.get j out ≡ js.get j config)
  unfolding has_or_create
  has_or_create-get key value config out e = elim (value_cases key value config) [
    | inl g ↦
        let made : js.add key (int (pos value)) config ≡ out =
          some-injective _ out (rw (g, has_or_create) at e) in
        (
          (pos value, rw (sym made) (js.get-add key (int (pos value)) config), inr (g, refl)),
          λ j d. rw (sym made) (js.get-add_ne key j (int (pos value)) config d),
        )
    | inr (inl (n, g)) ↦
        let same : config ≡ out = some-injective config out (rw (g, has_or_create) at e) in
        ((n, ap (js.get key) (sym same) ∙ g, inl g), λ j d. ap (js.get j) (sym same))
    | inr (inr g) ↦ absurd (none-ne-some _ (sym g ∙ e))
  ]

  -- A configuration that parse_json accepts has the number of processes, whatever the file says of it,
  -- and an integer number of items: the one of the file, or 100 if the file has none.
  pub parse_json-config :
      (files : Files O) (nranks : ℕ) (file text : String) (parsed config : O)
      → files.contents file ≡ some text
      → files.parse text ≡ some parsed
      → parse_json js files nranks file ≡ some config
      → (js.get "nranks" config ≡ some (int (pos nranks)))
        × ((n : ℤ) × (js.get "items_per_process" config ≡ some (int n))
            × ((js.get "items_per_process" parsed ≡ some (int n))
                ⊎ ((js.get "items_per_process" parsed ≡ none) × (n ≡ pos 100))))
  unfolding parse_json override_integer
  parse_json-config files nranks file text parsed config a b e = elim (Bool-cases files.memory) [
    | inr m ↦ absurd (none-ne-some _ (rw (a, m, parse_json) at e))
    | inl m ↦
        let read : js.get "items_per_process" (override_integer js "nranks" nranks parsed)
            ≡ js.get "items_per_process" parsed =
          js.get-add_ne "nranks" "items_per_process" (int (pos nranks)) parsed refl in
        let ((n, got, from), others) =
          has_or_create-get "items_per_process" 100 (override_integer js "nranks" nranks parsed)
            config (rw (a, m, b, parse_json) at e) in
        (
          others "nranks" refl ∙ js.get-add "nranks" (int (pos nranks)) parsed,
          (n, got, rw read at from),
        )
  ]

  -- Overriding a field with a text or a Boolean: the field has it then, and the others are as they were.
  pub override-has :
      (key text : String) (b : Bool) (config : O)
      → (config_has js key (override_string js key text config) ≡ some (string text))
        × (config_has js key (override_bool js key b config) ≡ some (boolean b))
        × ((j : String)
            → str_eq key j ≡ false
            → (config_has js j (override_string js key text config) ≡ config_has js j config)
              × (config_has js j (override_bool js key b config) ≡ config_has js j config))
  unfolding config_has override_string override_bool
  override-has key text b config = (
    js.get-add key (string text) config,
    js.get-add key (boolean b) config,
    λ j n. (js.get-add_ne key j (string text) config n, js.get-add_ne key j (boolean b) config n),
  )

  -- The dump has Margo's configuration, and everything else as the benchmark's configuration has it.
  pub dump_json-get :
      (files : Files O) (margo_config : String) (config out : O)
      → dump_json js files margo_config config ≡ some out
      → (js.get "margo" out ≡ some other)
        × ((j : String) → str_eq "margo" j ≡ false → js.get j out ≡ js.get j config)
  unfolding dump_json
  dump_json-get files margo_config config out e = elim (Option-cases (files.parse margo_config)) [
    | inl a ↦ absurd (none-ne-some out (rw (a, dump_json) at e))
    | inr (m, a) ↦
        let made : js.add "margo" other (js.del "margo" config) ≡ out =
          some-injective _ out (rw (a, dump_json) at e) in
        (
          rw (sym made) (js.get-add "margo" other (js.del "margo" config)),
          λ j d. rw (sym made) (
              js.get-add_ne "margo" j other (js.del "margo" config) d
              ∙ js.get-del_ne "margo" j config d),
        )
  ]
