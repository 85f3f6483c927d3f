-- ===== src/Rehearsal.antt =====
-- scripts/production-baseline-vm.py. `Vm` has the host's name, what the Hub's health and the database
-- answer, and what `json.dumps` writes of the report, whose stages are not followed.
pub mod Keep
pub mod Replace
pub mod Stock
pub mod Restore
use see_size.Base.{
  ℕ, zero, suc, ◌==◌, nat_eq, string_eq, list_eq, String, ◌<>◌, Bool, true, false, not, ◌&&◌, ◌||◌,
  Option, none, some, List, [], ◌∷◌, ◌++◌, if◌then◌else◌, leb,
}
use see_size.Base.Dict.{Dict}
use see_size.Base.Text.{codes}
use see_size.Fs.{FilePath, ◌//◌, Bytes, Fs, exists, is_symlink, is_dir, path_text}
use see_size.Json.{Json}
use see_size.Script.{
  Machine, World, value_error, runtime_error, system_exit, crash, Result, ok, err, Action, pure,
  ◌>>=◌, ◌>>◌, raise_if, or_raise, each,
}
use see_size.Script.Checked.{lift}
use see_size.Script.Files.{
  ticked, of_result, change, read, write, copy_file, chmod, rename, spawn, run_checked,
}
use see_size.Setup.Cache.{refuse}
use see_size.Setup.Checks.Hub.{strip}
use see_size.Upgrade.{is_real}
use see_size.Rollout.{at_key, is_text, binary}
use see_size.Rollout.Main.{attempt}
use see_size.ChartHub.{occurs}

pub record Vm : Type 0 where
  pub hostname : String
  pub health : ℕ → Result ℕ
  pub row : ℕ → Result (ℕ × Option ℕ)
  pub report : ℕ → Bool → Dict String String → Bytes

abbrev pub vm_home : FilePath
vm_home = [] // "home" // "wsr"

abbrev pub lab : FilePath
lab = vm_home // "seesize-upgrade-lab"

abbrev pub baseline : FilePath
baseline = vm_home // "production-baseline-20260927"

abbrev pub kit : FilePath
kit = vm_home // "upgrade-kit-fixed"

abbrev pub original : FilePath
original = lab // "pre-vm-switch-01"

abbrev pub bundle : FilePath
bundle = lab // "pre-vm-production-01"

-- `expected`
abbrev pub expected : String → String
expected c =
    if c == "hub"
    then "78beb8d7f29a387898f695ffcd1fa318a99ea9a27a93f091b4ee4df5e2aa714d"
    else "a5aa4047fbbd8aebbb375991c9c46b7dd918291c664a53f9129e9c20a89c84eb"

abbrev pub both : List String
both = "hub" ∷ "agent" ∷ []

-- `dst.with_name(dst.name+'.production-test-next')`
abbrev pub next_of : String → FilePath
next_of c = lab // ("seesize-" <> c <> "-linux-amd64" <> ".production-test-next")

-- `any(b[0]<=a[0] or b[1]<=a[1] for a,b in zip(rows,rows[1:]))`; a None is compared with a TypeError.
stuck : List (ℕ × Option ℕ) → Result Bool
stuck [] = ok false
stuck (a ∷ []) = ok false
stuck ((a, some x) ∷ (b, some y) ∷ rest) =
    let later = stuck ((b, some y) ∷ rest) in if leb b a || leb y x then ok true else later
stuck ((a, x) ∷ (b, y) ∷ rest) = if leb b a then ok true else err crash

module _ (m : Machine) (vm : Vm) where
  pub digest : FilePath → Action String
  digest p = do body ← read m p; pure (m.sha256 body)

  pub user_service : List String → Action String
  user_service args = run_checked m ("systemctl" ∷ "--user" ∷ args)

  pub check_component : Json → String → Action (Unit {0})
  check_component manifest c = do
    base ← digest (binary baseline c)
    raise_if (not (base == expected c)) (system_exit "Baseline mismatch")
    new ← digest (binary kit c)
    hashes ← lift (at_key "sha256" manifest)
    hash ← lift (at_key ("seesize-" <> c <> "-linux-amd64") hashes)
    raise_if (not (is_text new hash)) (system_exit "Candidate mismatch")
    here ← digest (binary lab c)
    there ← digest (binary original c)
    raise_if (not (here == there)) (system_exit "Original lab mismatch")
    r ← spawn m ("systemctl" ∷ "--user" ∷ "is-active" ∷ ("seesize-" <> c) ∷ [])
    code ← of_result r.ending
    raise_if (not (strip r.stdout == "inactive")) (system_exit "Expected stopped service")
    command ← user_service ("show" ∷ ("seesize-" <> c) ∷ "-p" ∷ "ExecStart" ∷ "--value" ∷ [])
    raise_if (not (occurs (codes (path_text (binary lab c))) (codes command)))
        (system_exit "Wrong service path")

  -- Everything before the `try`.
  pub check_all : Action (Unit {0})
  check_all = do
    refuse (λ fs. not (vm.hostname == "wsr") || not (is_real fs lab) || not (is_dir fs original))
        (system_exit "Wrong lab")
    raw ← read m (kit // "build-manifest.json")
    manifest ← or_raise (m.loads raw) (value_error "JSONDecodeError")
    each both (check_component manifest)
    refuse (λ fs. exists fs bundle) (system_exit "Already tested release")

  pub replace : String → FilePath → Action (Unit {0})
  replace c folder = do
    refuse (λ fs. exists fs (next_of c) || is_symlink fs (next_of c))
        (runtime_error "Staging exists")
    copy_file m (binary folder c) (next_of c)
    chmod m (next_of c) 0o700
    copied ← digest (next_of c)
    wanted ← digest (binary folder c)
    raise_if (not (copied == wanted)) (runtime_error "Copy mismatch")
    rename m (next_of c) (binary lab c)

  pub sleep : Action (Unit {0})
  sleep = change m (λ fs. fs)

  pub start : String → Action (Unit {0})
  start c = do started ← user_service ("start" ∷ ("seesize-" <> c) ∷ []); sleep

  pub stop : String → Action (Unit {0})
  stop c = do stopped ← user_service ("stop" ∷ ("seesize-" <> c) ∷ []); pure tt

  pub ask_health : Action ℕ
  ask_health w = (vm.health w.tick, ticked m w w.fs)

  pub ask_row : Action (ℕ × Option ℕ)
  ask_row w = (vm.row w.tick, ticked m w w.fs)

  -- A sample, and the last ones after it, each after a pause.
  pub sample : Action (ℕ × Option ℕ)
  sample = do
    status ← ask_health
    raise_if (not (status == 200)) (runtime_error "Unhealthy")
    ask_row

  pub samples : ℕ → Action (List (ℕ × Option ℕ))
  samples zero = pure []
  samples (suc n) = do sleep; row ← sample; later ← samples n; pure (row ∷ later)

  pub observe : String → Action (Unit {0})
  observe label = do
    first ← sample
    later ← samples 3
    none_new ← lift (stuck (first ∷ later))
    raise_if none_new (runtime_error ("No progress: " <> label))

  pub with_hashes : List String → Action (List String)
  with_hashes [] = pure []
  with_hashes (c ∷ cs) = do
    hash ← digest (binary kit c)
    rest ← with_hashes cs
    pure (
        "--candidate"
        ∷ (c <> "=" <> path_text (binary kit c))
        ∷ "--sha256"
        ∷ (c <> "=" <> hash)
        ∷ rest)

  pub check_bundle : String → Action (Unit {0})
  check_bundle c = do
    hash ← digest (binary bundle c)
    raise_if (not (hash == expected c)) (runtime_error "Rollback bundle mismatch")

  -- One exchange and what is seen after it.
  pub exchange : String → FilePath → String → Action (Unit {0})
  exchange c folder label = do stop c; replace c folder; start c; observe label

  -- The `try`.
  pub rehearse : Action (Unit {0})
  rehearse = do
    replace "hub" baseline
    replace "agent" baseline
    start "hub"
    start "agent"
    observe "production-baseline"
    hashes ← with_hashes both
    prepared ← run_checked m (
        ("python3"
          ∷ path_text (kit // "upgrade-prepare.py")
          ∷ "--root"
          ∷ path_text lab
          ∷ "--release"
          ∷ "vm-production-01"
          ∷ "--prepare"
          ∷ [])
        ++ hashes)
    each both check_bundle
    exchange "hub" (bundle // "candidates") "new-hub-production-agent"
    exchange "agent" (bundle // "candidates") "new-pair"
    exchange "agent" bundle "rollback-agent"
    exchange "hub" bundle "rollback-pair"

  pub final_hashes : List String → Action (Dict String String)
  final_hashes [] = pure []
  final_hashes (c ∷ cs) = do
    hash ← digest (binary lab c)
    rest ← final_hashes cs
    pure ((c, hash) ∷ rest)

  -- The `finally` up to the programs, and after them.
  pub put_back : Action (Unit {0})
  put_back = do stop "agent"; stop "hub"; replace "hub" original; replace "agent" original

  abbrev passed : Result (Unit {0}) → Bool
  passed (ok u) = true
  passed (err e) = false

  pub write_report : Result (Unit {0}) → Action (Unit {0})
  write_report ending = do
    hashes ← final_hashes both
    text ← (λ w. pure (vm.report w.tick (passed ending) hashes) w)
    write m (lab // "production-baseline-acceptance.json") text 0o644
    λ w. (ending, w)

  -- The `try` with its `finally`.
  unfoldable pub run_all : Action (Unit {0})
  unfolding stuck digest user_service replace sleep start stop ask_health ask_row sample samples
      observe with_hashes check_bundle exchange rehearse final_hashes put_back write_report
  run_all = do ending ← attempt rehearse; put_back; write_report ending

  unfoldable pub main : Action (Unit {0})
  unfolding check_component check_all
  main = do check_all; run_all
