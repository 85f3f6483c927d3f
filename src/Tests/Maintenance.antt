-- ===== src/Tests/Maintenance.antt =====
-- Runs of `main` of storage-maintenance.
use text.Mathlib.TextEquality.{eq_iff}
use see_size.Base.{
  ◌≡◌, refl, ◌≢◌, String, list_eq, string_eq, true, [], ◌∷◌, arith, contains, false,
}
use see_size.Base.Dict.{lookup}
use see_size.Fs.{FilePath, ◌//◌, file, folder, under}
use see_size.Script.{World}
use see_size.Script.Rules.{Outcome}
use see_size.Script.Frame.{Holds}
use see_size.Setup.Register.Safety.{Untouched}
use see_size.Storage.{protected}
use see_size.Storage.Main.{Args, is_partial_name, main}
use see_size.Storage.Main.Safety.{Durable, main_protected, main_dry}
use see_size.Tests.{machine, node, no_mount, always_due, candidate_path}

abbrev app : FilePath
app = candidate_path "app"

-- A completed backup.
abbrev daily : FilePath
daily = app // "backups" // "seesize-1.db"

abbrev kept : World
kept = record {
  fs =
      (app, node folder 1000 0o700)
      ∷ (app // "data", node folder 1000 0o700)
      ∷ (app // "data" // "seesize.db", node (file (8 ∷ [])) 1000 0o600)
      ∷ (app // "backups", node folder 1000 0o700)
      ∷ (daily, node (file (9 ∷ [])) 1000 0o600)
      ∷ (app // "backups" // ".status-1.partial", node (file (8 ∷ [])) 1000 0o600)
      ∷ (app // "maintenance-artifacts.json", node (file (6 ∷ [])) 1000 0o600)
      ∷ [];
  tick = 0;
  commands = [];
}

daily-Holds : Holds daily (9 ∷ []) kept
unfolding string_eq list_eq lookup
daily-Holds = refl

backups_protected : contains protected "backups" ≡ true
unfolding string_eq
backups_protected = refl

daily_complete : is_partial_name "seesize-1.db" ≡ false
unfolding is_partial_name
daily_complete = refl

daily-Durable : Durable app daily
daily-Durable n partial e = ground (arith, daily_complete)

backups_ne_report : ◌≢◌ {A = String} "backups" "storage-status.json"
backups_ne_report = ground (arith, eq_iff "backups" "storage-status.json")

daily_inside : under (app // "backups") daily ≡ true
unfolding under string_eq list_eq
daily_inside = refl

untouched : Untouched machine daily
untouched i args fs = refl

abbrev apply_args : Args
apply_args = record { root = "app"; apply = true }

abbrev dry_args : Args
dry_args = record { root = "app"; apply = false }

main_protected_example :
    Outcome
      (λ _. Holds daily (9 ∷ []))
      (λ _. Holds daily (9 ∷ []))
      (main machine no_mount always_due apply_args kept)
main_protected_example =
    main_protected machine no_mount always_due apply_args "backups" daily (9 ∷ []) kept
      backups_protected daily-Durable backups_ne_report daily_inside untouched daily-Holds

main_dry_example :
    Outcome
      (λ _ v. (v.fs ≡ kept.fs) × (v.commands ≡ kept.commands))
      (λ _ v. (v.fs ≡ kept.fs) × (v.commands ≡ kept.commands))
      (main machine no_mount always_due dry_args kept)
main_dry_example = main_dry machine no_mount always_due dry_args kept refl
