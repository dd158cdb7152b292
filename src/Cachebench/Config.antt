-- ===== src/Cachebench/Config.antt =====
-- The command line and the configuration of the benchmark: parse_args, parse_json and dump_json of
-- examples/cachebench.c, with the macros of examples/json-macros.h. What they
-- print is left out.
pub mod Keys
use mathlib.Core.Option.{some-injective, none-ne-some}
use text.Mathlib.Text.{◌==◌ as str_eq}
use cachercise.Base.{
  ℕ, ◌<◌, ◌≡◌, refl, sym, ap, ◌∙◌, Bool, true, false, String, Option, none, some, List, [], ◌∷◌,
  arith, ltb, if◌then◌else◌, Bool-cases, Option-cases, inl, inr, ◌⊎◌,
}
use cachercise.Base.Int.{ℤ, pos}
use cachercise.Base.Run.{Run, ok, fault, undefined, ◌>>=◌}

-- A JSON value: an integer, a text, a Boolean, or of another type.
pub data Value : Type 0 where
  int : ℤ → Value
  string : String → Value
  boolean : Bool → Value
  other : Value

-- What the benchmark uses of json-c: json_object_object_get, json_object_object_del, and
-- json_object_object_add, which takes the place of a value that is there.
pub record Json (O : Type 0) : Type 0 where
  pub get : String → O → Option Value
  pub add : String → Value → O → O
  pub del : String → O → O
  pub get-add : (k : String) (v : Value) (o : O) → get k (add k v o) ≡ some v
  pub get-add_ne :
      (k j : String) (v : Value) (o : O) → str_eq k j ≡ false → get j (add k v o) ≡ get j o
  pub get-del_ne : (k j : String) (o : O) → str_eq k j ≡ false → get j (del k o) ≡ get j o

-- The files, malloc and the parser of json-c.
pub record Files (O : Type 0) : Type 0 where
  pub contents : String → Option String
  pub memory : Bool
  pub parse : String → Option O

-- struct options; a name that is not set is empty
pub record Options : Type 0 where
  pub group_file : String
  pub json_file : String

-- An option that getopt returns.
pub data Opt : Type 0 where
  group json : (optarg : String) → Opt
  unknown : Opt

-- sscanf of an option's argument by "%s": the first word and its length, if there is one. It goes
-- into an array of 256 characters.
unfoldable pub scan_file : (word : String → Option (ℕ × String)) → String → Run (Option String)
scan_file word optarg = elim (word optarg) [
  | none ↦ ok none
  | some (n, s) ↦ if ltb n 256 then ok (some s) else fault undefined
]

-- The loop over the options; `none` where it returns -1.
unfoldable pub read_options :
    (word : String → Option (ℕ × String)) → List Opt → Options → Run (Option Options)
unfolding scan_file
read_options word [] o = ok (some o)
read_options word (unknown ∷ opts) o = ok none
read_options word (group a ∷ opts) o = scan_file word a >>= λ f. elim f [
  | none ↦ ok none
  | some s ↦ read_options word opts (record o { group_file = s })
]
read_options word (json a ∷ opts) o = scan_file word a >>= λ f. elim f [
  | none ↦ ok none
  | some s ↦ read_options word opts (record o { json_file = s })
]

-- Options other than -j, each with an argument that is a short enough word.
abbrev pub OnlyGroups : (word : String → Option (ℕ × String)) → List Opt → Type 0
OnlyGroups word [] = Unit
OnlyGroups word (group a ∷ opts) =
    ((n : ℕ) × (s : String) × (word a ≡ some (n, s)) × (n < 256)) × OnlyGroups word opts
OnlyGroups word (_ ∷ opts) = ⊥

read_options-OnlyGroups :
    (word : String → Option (ℕ × String)) (opts : List Opt) (o : Options)
    → OnlyGroups word opts
    → (group_file : String) × (read_options word opts o
        ≡ ok (some (record o { group_file = group_file })))
unfolding read_options scan_file
read_options-OnlyGroups word [] o a = (o.group_file, refl)
read_options-OnlyGroups word (group g ∷ opts) o ((n, s, e, l), fine) =
    let short : ltb n 256 ≡ true = ground arith in
    let (f, rest) = read_options-OnlyGroups word opts (record o { group_file = s }) fine in
    (f, rw (e, short, read_options, scan_file) rest)
read_options-OnlyGroups word (json g ∷ opts) o a = absurd a
read_options-OnlyGroups word (unknown ∷ opts) o a = absurd a

module _ {O : Type 0} (js : Json O) where
  unfoldable pub override_integer : String → ℕ → O → O
  override_integer key value config = js.add key (int (pos value)) config

  -- `none` where the macro returns -1 from the function around it.
  unfoldable pub has_or_create : String → ℕ → O → Option O
  has_or_create key value config = elim (js.get key config) [
    | none ↦ some (js.add key (int (pos value)) config)
    | some (int n) ↦ some config
    | some (string t) ↦ none
    | some (boolean b) ↦ none
    | some other ↦ none
  ]

  -- CONFIG_HAS: the field, if there is one.
  unfoldable pub config_has : String → O → Option Value
  config_has key config = js.get key config

  unfoldable pub override_string : (key value : String) → O → O
  override_string key value config = js.add key (string value) config

  unfoldable pub override_bool : String → Bool → O → O
  override_bool key value config = js.add key (boolean value) config

  -- parse_json: the configuration, or `none` for -1.
  unfoldable pub parse_json : Files O → (nranks : ℕ) → String → Option O
  unfolding override_integer has_or_create
  parse_json files nranks json_file = elim (files.contents json_file) [
    | none ↦ none
    | some text ↦
        if files.memory
        then elim (files.parse text) [
          | none ↦ none
          | some config ↦
              has_or_create "items_per_process" 100 (override_integer "nranks" nranks config)
        ]
        else none
  ]

  -- The configuration is `none` where it has not been set: parse_args returns 0 all the same.
  unfoldable pub parse_args :
      Files O
      → (nranks : ℕ) → (word : String → Option (ℕ × String)) → List Opt
      → Run (Option (Options × Option O))
  unfolding read_options parse_json
  parse_args files nranks word opts = do
    read ← read_options word opts (record { group_file = ""; json_file = "" })
    elim read [
      | none ↦ ok none
      | some o ↦
          if str_eq o.json_file ""
          then ok (some (o, none))
          else elim (parse_json files nranks o.json_file) [
            | none ↦ ok none
            | some config ↦ ok (some (o, some config))
          ]
    ]

  -- Without -j, parse_args accepts the command line and leaves the configuration unset.
  pub parse_args-unset :
      (files : Files O) (nranks : ℕ) (word : String → Option (ℕ × String)) (opts : List Opt)
      → OnlyGroups word opts
      → (o : Options) × (parse_args files nranks word opts ≡ ok (some (o, none)))
  unfolding parse_args
  parse_args-unset files nranks word opts a =
      let (f, read) =
        read_options-OnlyGroups word opts (record { group_file = ""; json_file = "" }) a in
      (record { group_file = f; json_file = "" }, rw read refl)

  -- dump_json: the configuration with that of Margo in it, which is printed, or `none` for -1.
  unfoldable pub dump_json : Files O → (margo_config : String) → O → Option O
  dump_json files margo_config config = elim (files.parse margo_config) [
    | none ↦ none
    | some margo ↦ some (js.add "margo" other (js.del "margo" config))
  ]
