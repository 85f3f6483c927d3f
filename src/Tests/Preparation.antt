-- ===== src/Tests/Preparation.antt =====
-- Runs of `main` of upgrade-prepare.
use text.Mathlib.TextEquality.{eq_iff}
use see_size.Base.{
  ◌≡◌, refl, ◌≢◌, String, Bool, ◌<>◌, list_eq, string_eq, true, false, List, [], ◌∷◌, arith,
  contains, if◌then◌else◌,
}
use see_size.Base.Dict.{lookup, insert, lookup-insert}
use see_size.Fs.{FilePath, ◌//◌, Fs, file, folder, under}
use see_size.Script.{Machine, World, ok}
use see_size.Script.Rules.{Outcome}
use see_size.Script.Frame.{Holds}
use see_size.Upgrade.Prepare.{Args, main, register}
use see_size.Upgrade.Prepare.Frame.{Confined}
use see_size.Upgrade.Prepare.Safety.{Finished, Stopped, target_of, main_lem, main-Holds}
use see_size.Tests.{machine, node, program, some_hash, candidate_path}

abbrev app : FilePath
app = candidate_path "app"

abbrev bundle : FilePath
bundle = app // "pre-r1"

-- The backup program writes one snapshot.
abbrev backup : List String → Fs → Fs
backup args fs =
    if contains args "-keep"
    then insert (bundle // "seesize-1.db") (node (file (8 ∷ [])) 1000 0o600) fs
    else fs

abbrev backing_up : Machine
backing_up = record machine {
  shell = λ i args fs. record { ending = ok 0; stdout = "unit"; fs = backup args fs };
}

abbrev run_args : Args
run_args = record {
  root = "app";
  release = "r1";
  candidate = ("hub=hub") ∷ [];
  sha256 = ("hub=" <> some_hash) ∷ [];
  prepare = true;
}

snapshot-Confined : Confined backing_up (target_of backing_up run_args)
snapshot-Confined i words fs d n h = written (contains words "-keep")
  where
    written :
        (c : Bool)
        → lookup (d // n) (
            if c
            then insert (bundle // "seesize-1.db") (node (file (8 ∷ [])) 1000 0o600) fs
            else fs)
          ≡ lookup (d // n) fs
    written true = ground (
      arith,
      lookup-insert (d // n) (bundle // "seesize-1.db") (node (file (8 ∷ [])) 1000 0o600) fs,
    )
    written false = refl

abbrev before : World
before = record {
  fs =
      (app, node folder 1000 0o700)
      ∷ (app // "seesize-hub-linux-amd64", node (file program) 1000 0o700)
      ∷ (app // "seesize-agent-linux-amd64", node (file program) 1000 0o700)
      ∷ (app // "seesize-backup-linux-amd64", node (file program) 1000 0o700)
      ∷ (app // "data", node folder 1000 0o700)
      ∷ (app // "data" // "seesize.db", node (file (8 ∷ [])) 1000 0o600)
      ∷ (app // "maintenance-artifacts.json", node (file (6 ∷ [])) 1000 0o600)
      ∷ (candidate_path "hub", node (file program) 1000 0o700)
      ∷ [];
  tick = 0;
  commands = [];
}

registered-Holds : Holds (register app) (6 ∷ []) before
unfolding string_eq list_eq lookup
registered-Holds = refl

main_lem_example :
    Outcome
      (λ _. Finished backing_up run_args (6 ∷ []))
      (λ _. Stopped backing_up app "r1" (6 ∷ []))
      (main backing_up run_args before)
main_lem_example = main_lem backing_up run_args (6 ∷ []) before snapshot-Confined registered-Holds

hub_outside : under bundle (app // "seesize-hub-linux-amd64") ≡ false
unfolding under string_eq list_eq
hub_outside = refl

hub_ne_register : app // "seesize-hub-linux-amd64" ≢ register app
hub_ne_register = ground (arith, eq_iff "seesize-hub-linux-amd64" "maintenance-artifacts.json")

hub_ne_lock : app // "seesize-hub-linux-amd64" ≢ app // ".maintenance.lock"
hub_ne_lock = ground (arith, eq_iff "seesize-hub-linux-amd64" ".maintenance.lock")

hub-Holds : Holds (app // "seesize-hub-linux-amd64") program before
unfolding string_eq list_eq lookup
hub-Holds = refl

main-Holds_example :
    Outcome
      (λ _. Holds (app // "seesize-hub-linux-amd64") program)
      (λ _. Holds (app // "seesize-hub-linux-amd64") program)
      (main backing_up run_args before)
main-Holds_example =
    main-Holds backing_up run_args app "seesize-hub-linux-amd64" program before snapshot-Confined
      hub_outside hub_ne_register hub_ne_lock hub-Holds
