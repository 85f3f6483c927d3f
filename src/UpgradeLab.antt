-- ===== src/UpgradeLab.antt =====
-- scripts/setup-upgrade-lab.py. `Bench` has what a program prints to its standard error, whether the
-- port can be bound, the random tokens, and the reading and writing of texts. The environment of
-- the programs that are asked for their flags is left out.
pub mod Safety
use see_size.Base.{
  ℕ, ◌==◌, nat_eq, string_eq, String, ◌<>◌, Bool, true, false, not, ◌&&◌, ◌||◌, Option, none, some,
  List, [], ◌∷◌, if◌then◌else◌,
}
use see_size.Base.Text.{codes}
use see_size.Fs.{FilePath, ◌//◌, Bytes, Fs, exists, is_symlink, is_dir, is_file, path_text}
use see_size.Json.{Json, array, nil}
use see_size.Script.{
  Machine, World, value_error, system_exit, Result, Action, pure, ◌>>=◌, ◌>>◌, raise_if, or_raise,
  each, finally,
}
use see_size.Script.Checked.{lift}
use see_size.Script.Files.{
  of_result, read, write, copy_file, chmod, mkdir, make_temp_folder, rmtree, spawn, run_checked,
}
use see_size.Setup.Cache.{refuse, create}
use see_size.Setup.Checks.Hub.{strip}
use see_size.Rollout.{at_key, is_text}
use see_size.ChartHub.{occurs}

pub record Bench : Type 0 where
  pub errors : ℕ → String
  pub bind : ℕ → Result (Unit {0})
  pub token : ℕ → String
  pub utf8 : Bytes → Option String
  pub encode : String → Bytes

abbrev program_of : String → String
program_of c = "seesize-" <> c <> "-linux-amd64"

-- `required`
abbrev required : List (String × List String)
required =
    ("hub", "backup-dir" ∷ "admin-token-file" ∷ [])
    ∷ ("agent", "token-file" ∷ "interval" ∷ [])
    ∷ ("backup", "source" ∷ "verify" ∷ "keep" ∷ [])
    ∷ []

abbrev lab_components : List String
lab_components = "hub" ∷ "agent" ∷ "backup" ∷ []

abbrev unit_names : List String
unit_names =
    "seesize-hub.service" ∷ "seesize-agent.service" ∷ "seesize-backup.service"
    ∷ "seesize-backup.timer" ∷ []

abbrev base : String
base = "%h/seesize-upgrade-lab"

-- `configs`
abbrev unit_texts : List (String × String)
unit_texts =
    (
      "seesize-hub.service",
      "[Service]\nEnvironmentFile=" <> base <> "/lab.env\nExecStart=" <> base
          <> "/seesize-hub-linux-amd64 -listen 127.0.0.1:28081 -data " <> base
          <> "/data/seesize.db -admin-token-file " <> base <> "/admin.token -backup-dir " <> base
          <> "/backups\n",
    )
    ∷ (
      "seesize-agent.service",
      "[Service]\nExecStart=" <> base
          <> "/seesize-agent-linux-amd64 -hub http://127.0.0.1:28081 -token-file " <> base
          <> "/agent.token -id upgrade-lab-only -interval 2s\n",
    )
    ∷ (
      "seesize-backup.service",
      "[Service]\nType=oneshot\nExecStart=" <> base <> "/seesize-backup-linux-amd64 -source "
          <> base <> "/data/seesize.db -dir " <> base <> "/backups -keep 7\n",
    )
    ∷ ("seesize-backup.timer", "[Timer]\nOnCalendar=daily\nUnit=seesize-backup.service\n")
    ∷ []

-- The help text does not name the flag.
lacks : String → String → Bool
lacks output flag =
    not (occurs (codes ("\n  -" <> flag <> " ")) (codes output))
    && not (occurs (codes ("\n  -" <> flag <> "\n")) (codes output))

any_lacks : String → List String → Bool
any_lacks output [] = false
any_lacks output (f ∷ fs) = lacks output f || any_lacks output fs

abbrev pub lab_root : Machine → FilePath
lab_root m = m.home // "seesize-upgrade-lab"

abbrev pub units : Machine → FilePath
units m = m.home // ".config" // "systemd" // "user"

module _ (m : Machine) (bench : Bench) where
  lab : FilePath
  lab = lab_root m

  -- One component of the package, checked by its hash and its flags.
  check_component : FilePath → Json → FilePath → String × List String → Action (Unit {0})
  check_component source manifest temporary (c, flags) = do
    body ← read m (source // program_of c)
    hashes ← lift (at_key "sha256" manifest)
    hash ← lift (at_key (program_of c) hashes)
    raise_if (not (is_text (m.sha256 body) hash)) (system_exit ("Package hash mismatch: " <> c))
    copy_file m (source // program_of c) (temporary // program_of c)
    chmod m (temporary // program_of c) 0o700
    errors ← (λ w. pure (bench.errors w.tick) w)
    r ← spawn m (path_text (temporary // program_of c) ∷ "-h" ∷ [])
    code ← of_result r.ending
    raise_if (not (code == 0) || any_lacks (r.stdout <> errors) flags)
        (system_exit ("Package capability mismatch: " <> c))

  -- `with tempfile.TemporaryDirectory`
  check_package : FilePath → Action (Unit {0})
  check_package source = do
    raw ← read m (source // "build-manifest.json")
    manifest ← or_raise (m.loads raw) (value_error "JSONDecodeError")
    temporary ← make_temp_folder m m.temp_folder "seesize-capabilities-"
    finally (each required (check_component source manifest temporary)) (rmtree m temporary)

  check_unit : String → Action (Unit {0})
  check_unit name = do
    r ← spawn m ("systemctl" ∷ "--user" ∷ "show" ∷ name ∷ "--property=LoadState" ∷ "--value" ∷ [])
    code ← of_result r.ending
    refuse
        (λ fs.
          not (code == 0)
          || not (strip r.stdout == "not-found")
          || exists fs (units m // name)
          || is_symlink fs (units m // name))
        (system_exit ("Existing unit or unavailable user manager; refusing setup: " <> name))

  check_program : FilePath → String → Action (Unit {0})
  check_program source c =
      refuse (λ fs. not (is_file fs (source // program_of c)))
        (system_exit ("Missing binary: " <> c))

  -- Everything before `root.mkdir`.
  check_all : FilePath → Action (Unit {0})
  check_all source = do
    check_package source
    refuse (λ fs. exists fs lab || is_symlink fs lab)
        (system_exit "Lab directory already exists; refusing overwrite")
    each unit_names check_unit
    bound ← (λ w. (bench.bind w.tick, w))
    each lab_components (check_program source)

  make_folder : String → Action (Unit {0})
  make_folder name = mkdir m (lab // name) 0o700

  install : FilePath → String → Action (Unit {0})
  install source c = do
    copy_file m (source // program_of c) (lab // program_of c)
    chmod m (lab // program_of c) 0o700

  -- `open('x')`, with what is written through it.
  create_private : String → Action String → Action (Unit {0})
  create_private name content = do
    create m (lab // name) [] 0o644
    chmod m (lab // name) 0o600
    s ← content
    write m (lab // name) (bench.encode s) 0o644

  new_token : Action String
  new_token w = (pure (bench.token w.tick)) w

  save_token : String → Action (Unit {0})
  save_token name = create_private name new_token

  agent_environment : Action String
  agent_environment = do
    raw ← read m (lab // "agent.token")
    token ← or_raise (bench.utf8 raw) (value_error "UnicodeDecodeError")
    pure ("SEE_SIZE_AGENT_TOKEN=" <> token <> "\n")

  -- `mkdir(parents=True, exist_ok=True)`, one folder of the path.
  make_missing : FilePath → Action (Unit {0})
  make_missing p w = if is_dir w.fs p then (pure tt) w else mkdir m p 0o755 w

  write_unit : String × String → Action (Unit {0})
  write_unit (name, content) = do
    create m (units m // name) [] 0o644
    write m (units m // name)
        (bench.encode ("[Unit]\nDescription=SeeSize disposable upgrade lab\n" <> content)) 0o644

  make_lab : FilePath → Action (Unit {0})
  make_lab source = do
    mkdir m lab 0o700
    each ("data" ∷ "backups" ∷ "candidates" ∷ []) make_folder
    each lab_components (install source)
    copy_file m (lab // program_of "hub") (lab // "candidates" // program_of "hub")
    each ("admin.token" ∷ "agent.token" ∷ []) save_token
    write m (lab // "maintenance-artifacts.json") (m.dumps (array nil)) 0o644
    create_private "lab.env" agent_environment

  write_units : Action (Unit {0})
  write_units = do
    each ((m.home // ".config") ∷ (m.home // ".config" // "systemd") ∷ units m ∷ []) make_missing
    each unit_texts write_unit
    reloaded ← run_checked m ("systemctl" ∷ "--user" ∷ "daemon-reload" ∷ [])
    pure tt

  unfoldable pub main : FilePath → Action (Unit {0})
  unfolding lab lacks any_lacks check_component check_package check_unit check_program check_all
      make_folder install create_private new_token save_token agent_environment make_missing
      write_unit make_lab write_units
  main source = do check_all source; make_lab source; write_units
