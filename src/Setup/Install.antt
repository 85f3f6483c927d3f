-- ===== src/Setup/Install.antt =====
-- scripts/agent-setup.py: `install` and `check_update`.
pub mod Safety
use see_size.Base.{
  ℕ, ◌==◌, ◌*◌, nat_eq, string_eq, String, ◌<>◌, Bool, true, false, not, ◌||◌, Option, none, some,
  List, [], ◌∷◌, if◌then◌else◌, is_some,
}
use see_size.Fs.{FilePath, ◌//◌, Bytes, Fs, is_symlink, exists, path_text}
use see_size.Json.{Json, text, object, end, field, get_field}
use see_size.Script.{
  Machine, World, value_error, os_error, crash, ok, err, Result, Action, pure, ◌>>=◌, ◌>>◌,
  raise_if, or_raise, each, finally,
}
use see_size.Script.Checked.{lift}
use see_size.Script.Files.{
  read, write, copy_file, chmod, chown, mkdir, rmtree, run_checked, read_line, make_temp_folder,
}
use see_size.Setup.{root, data_folder, unit, unit_name, account, components, repo}
use see_size.Setup.Checks.Version.{version, device_id}
use see_size.Setup.Checks.Hub.{strip, hub_url}
use see_size.Setup.Checks.Manifest.{Release, manifest, Connection}
use see_size.Setup.Cache.{refuse}
use see_size.Setup.Fetch.{fetch}
use see_size.Setup.Preflight.{preflight}
use see_size.Setup.Register.{register}
use see_size.Setup.Update.{obtain, stage_program, uid_of}

-- `health.get('status') != 'ok'`
healthy : Option Json → Result Bool
healthy (some (object fs)) = elim (get_field "status" fs) [
  | some (text s) ↦ ok (s == "ok")
  | _ ↦ ok false
]
healthy (some _) = err crash
healthy none = err (value_error "JSONDecodeError")

-- What `check_update` prints.
pub record Comparison : Type 0 where
  pub installed : String
  pub requested : String
  pub same : Bool

module _ (m : Machine) where
  -- Nothing of an installation may be there.
  pub refuse_existing : Action (Unit {0})
  refuse_existing = do
    preflight m
    raise_if (not m.is_terminal)
        (value_error "Use a downloaded script in an interactive terminal, not a pipe")
    each (root ∷ data_folder ∷ unit ∷ []) (λ p.
        refuse (λ fs. exists fs p || is_symlink fs p)
          (value_error "Existing installation/path; refusing overwrite"))
    state ←
        run_checked m ("systemctl" ∷ "show" ∷ unit_name ∷ "--property=LoadState" ∷ "--value" ∷ [])
    raise_if (not (strip state == "not-found")) (value_error "Existing service; refusing takeover")
    λ w.
        raise_if (is_some (m.account w.tick account))
          (value_error "Service account already exists; refusing reuse") w

  -- `Path(args.bundle).resolve(strict=True)`
  require_bundle : Option FilePath → Action (Unit {0})
  require_bundle none = pure tt
  require_bundle (some bundle) = refuse (λ fs. not (exists fs bundle)) os_error

  -- The release, staged, and what the operator typed.
  prepare : FilePath → String → Option FilePath → Action (Bytes × Connection)
  prepare staged release bundle = do
    require_bundle bundle
    raw ←
        obtain m bundle "agent-release.json"
          (fetch m (repo <> release <> "/agent-release.json") (64 * 1024))
    desired ← lift (manifest m raw release)
    each components (stage_program m staged desired release bundle)
    typed_hub ← read_line m
    hub ← lift (hub_url m (strip typed_hub))
    typed_id ← read_line m
    identity ← lift (device_id (strip typed_id))
    answer ← read_line m
    raise_if (not (strip answer == "install")) (value_error "Cancelled; no system changes")
    health ← fetch m (hub <> "/healthz") 4096
    fine ← lift (healthy (m.loads health))
    raise_if (not fine) (value_error "Hub health check failed")
    pure (raw, record { hub = hub; identity = identity })

  -- The account, the folders and the files.
  set_up : FilePath → Bytes → Connection → Action (Unit {0})
  set_up staged raw connection = do
    made ← run_checked m (
        "useradd"
        ∷ "--system"
        ∷ "--user-group"
        ∷ "--home-dir"
        ∷ path_text data_folder
        ∷ "--no-create-home"
        ∷ "--shell"
        ∷ "/usr/sbin/nologin"
        ∷ account
        ∷ [])
    uid ← uid_of m account
    mkdir m root 0o755
    mkdir m data_folder 0o700
    chown m data_folder uid
    each components
        (λ name. do copy_file m (staged // name) (root // name); chmod m (root // name) 0o755)
    write m (root // "agent-release.json") raw 0o644
    write m (root // "connection.json")
        (m.dumps
          (object (field "hub" (text connection.hub) (field "id" (text connection.identity) end))))
        0o644
    copy_file m m.own_file (root // "agent-setup.py")

  unfoldable pub install : String → Option FilePath → Action (Unit {0})
  unfolding healthy refuse_existing require_bundle prepare set_up
  install requested bundle = do
    refuse_existing
    release ← lift (version m requested)
    staged ← make_temp_folder m m.temp_folder "seesize-install-"
    finally (do (raw, connection) ← prepare staged release bundle; set_up staged raw connection)
        (rmtree m staged)
    register m

  -- `json.loads(…)['version']`, where it is a text.
  installed_version : Option Json → Result String
  installed_version none = err (value_error "JSONDecodeError")
  installed_version (some (object fs)) = elim (get_field "version" fs) [
    | some (text s) ↦ ok s
    | _ ↦ err crash
  ]
  installed_version (some _) = err crash

  unfoldable pub check_update : String → Option FilePath → Action Comparison
  unfolding installed_version
  check_update requested bundle = do
    saved ← read m (root // "agent-release.json")
    current ← or_raise (m.loads saved) (value_error "JSONDecodeError")
    target ← lift (version m requested)
    raw ←
        obtain m bundle "agent-release.json"
          (fetch m (repo <> target <> "/agent-release.json") (64 * 1024))
    desired ← lift (manifest m raw target)
    named ← lift (installed_version (some current))
    shown ← lift (version m named)
    pure (record { installed = shown; requested = desired.version; same = target == named })
