-- ===== src/Cachebench/Main/Cleanup.antt =====
-- What main gives back before it returns.
use cachercise.Base.{
  ℕ, ◌+◌, ◌*◌, ◌<◌, ◌≤◌, ◌^◌, ◌≡◌, refl, String, false, not, Option, none, some, List, ◌==◌,
}
use cachercise.Base.Run.{Run, ok, fault, undefined}
use cachercise.Cachebench.Config.{Files, Json, Opt, parse_args, parse_args-unset, OnlyGroups}
use cachercise.Cachebench.Main.{Answers, Held, End, exited, returned, session, main}

-- The rank is one of the processes, the numbers that the loops count to are within an `int`, and Margo
-- has a configuration.
pub record Countable {O : Type 0} (js : Json O) (a : Answers) (rank : ℕ) (config : O) : Type 0 where
  pub text : String
  pub margo : a.margo_config ≡ some text
  pub ranked : rank < a.nprocs
  pub small : a.get_int (js.get "items_per_process" config) * a.nprocs + 100 ≤ 2 ^ 31

abbrev pub nothing : Held
nothing = record { config = false; margo = false; ssg = false; addr_str = false; addr = false }

-- A process that returns holds nothing and has called MPI_Abort unless it returns 0, and then the calls
-- of cachercise have all succeeded and left no handle; one that exits does so where one of them failed.
abbrev pub Clean :
    {O : Type 0} → Json O → Files O → Answers → (rank : ℕ) → (config : O) → End → Type 0
Clean js files a rank config exited = session js files a rank config ≡ ok none
Clean js files a rank config (returned ret aborted held) =
    (held ≡ nothing)
    × (aborted ≡ not (ret == 0))
    × (ret ≡ 0 → session js files a rank config ≡ ok (some none))

module _ {O : Type 0} (js : Json O) (files : Files O) (a : Answers) (rank : ℕ) (config : O) where
  abbrev last : Option (Option ℕ) → Run End
  last none = ok exited
  last (some left) = ok (returned 0 false nothing)

-- With any number of options -g, each with a word of fewer than 256 characters, and without -j, main
-- is undefined: it reads the configuration, which nothing has set.
pub main-unset :
    {O : Type 0} (js : Json O) (files : Files O) (nranks : ℕ) (word : String → Option (ℕ × String))
    (options : List Opt) (a : Answers) (rank : ℕ)
    → OnlyGroups word options
    → main js files a rank (parse_args js files nranks word options) ≡ fault undefined
unfolding main
main-unset js files nranks word options a rank only =
    let (o, parsed) = parse_args-unset js files nranks word options only in rw parsed refl
