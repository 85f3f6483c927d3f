-- ===== src/Deployment.antt =====
-- scripts/deployment-check.py. `Host` has what the script asks of its surroundings besides the
-- machine: the user, `os.access`, the port, the health check, and how a number is written.

pub mod Blockers
pub mod Services
pub mod Files
pub mod Safety
pub mod ReadOnly
use see_size.Base.{
  ℕ, ◌+◌, ◌*◌, ◌^◌, ◌==◌, nat_eq, string_eq, list_eq, String, ◌<>◌, Bool, true, false, not, ◌&&◌,
  ◌||◌, Option, none, some, List, [], ◌∷◌, ◌++◌, if◌then◌else◌, leb, take, bit_and, contains,
}
use see_size.Fs.{
  FilePath, ◌//◌, Fs, Bytes, Node, is_symlink, is_file, is_dir, parent, size, holds, stat,
}
use see_size.Json.{Json, text, object, get_field}
use see_size.Script.{
  Machine, World, Exc, os_error, process_error, system_exit, Result, ok, err, Action, pure, raise,
  ◌>>=◌, ◌>>◌, raise_if, catch,
}
use see_size.Script.Files.{read, stat_of, spawn, of_result}
use see_size.Setup.Checks.Binary.{not_elf}
use see_size.Setup.Checks.Hub.{strip}
use see_size.Upgrade.{is_real}

-- `os.access(path, mode)`
pub data Access : Type 0 where
  can_execute can_read can_enter can_use : Access

pub record Host : Type 0 where
  pub uid : ℕ
  pub access : Fs → FilePath → Access → Bool
  pub port_free : ℕ → Bool
  pub healthz : ℕ → Option (ℕ × Option Json)
  pub number_text : ℕ → String

pub data Mode : Type 0 where
  install installed : Mode

pub record Args : Type 0 where
  pub root : String
  pub mode : Mode
  pub port : ℕ

pub data Status : Type 0 where
  pass warn fail : Status

pub record Check : Type 0 where
  pub check : String
  pub status : Status
  pub detail : String

-- `add` for a check that may block, and for a warning.
abbrev pub add : String → Bool → String → List Check
add name good detail =
    record { check = name; status = if good then pass else fail; detail = detail } ∷ []

abbrev caution : String → Bool → String → List Check
caution name good detail =
    record { check = name; status = if good then pass else warn; detail = detail } ∷ []

abbrev or_text : String → String → String
or_text s t = if s == "" then t else s

-- `sum(c['status']=='FAIL' for c in checks)`
unfoldable pub blockers : List Check → ℕ
blockers [] = 0
blockers (c ∷ cs) = let rest = blockers cs in elim c.status [ fail ↦ 1 + rest | _ ↦ rest ]

abbrev pub programs : List String
programs = "hub" ∷ "agent" ∷ "backup" ∷ []

abbrev pub credentials : List String
credentials = "admin.token" ∷ "agent.token" ∷ []

abbrev pub folders : List String
folders = "data" ∷ "backups" ∷ []

abbrev pub services : List String
services = "seesize-hub.service" ∷ "seesize-agent.service" ∷ "seesize-backup.timer" ∷ []

-- The checks of a loop, one after the other.
unfoldable pub gather : {A : Type 0} → List A → (A → Action (List Check)) → Action (List Check)
gather [] f = pure []
gather (x ∷ xs) f = do here ← f x; rest ← gather xs f; pure (here ++ rest)

-- `getattr(r, 'status')==200 and json.load(r).get('status')=='ok'`, false for every exception.
pub healthy : Option (ℕ × Option Json) → Bool
healthy (some (code, some (object fs))) = elim (get_field "status" fs) [
  | some (text s) ↦ code == 200 && s == "ok"
  | _ ↦ false
]
healthy _ = false

healthz_detail : Option (ℕ × Option Json) → String
healthz_detail (some (code, some (object fs))) =
    "read-only loopback health check; not full application verification"
healthz_detail (some (code, body)) =
    if code == 200
    then "unavailable or invalid health response"
    else "read-only loopback health check; not full application verification"
healthz_detail none = "unavailable or invalid health response"

module _ (m : Machine) (host : Host) where
  unfoldable pub executable_check : FilePath → Action (Bool × String)
  executable_check path w =
      if is_symlink w.fs path || not (is_file w.fs path)
      then (ok (false, "missing regular executable"), w)
      else if not (host.access w.fs path can_execute)
      then (ok (false, "execute permission missing"), w)
      else (do
        header ← read m path
        pure (
            if not_elf (take 20 header)
            then (false, "expected Linux x86_64 ELF binary")
            else (true, "ELF x86_64; permissions OK (binary not executed)")))
          w

  -- `info.st_uid!=os.getuid() or stat.S_IMODE(info.st_mode)&0o077`, negated.
  abbrev pub private : Node → Bool
  private n = n.uid == host.uid && bit_and n.mode 0o077 == 0

  unfoldable pub credential_check : FilePath → Action (Bool × String)
  credential_check path w =
      if is_symlink w.fs path || not (is_file w.fs path)
      then (ok (false, "missing regular credential file"), w)
      else (do
        info ← stat_of m path
        λ v. (
          ok (
              if not (private info)
              then (false, "credential must belong to current user and deny group/other access")
              else if not (host.access v.fs path can_read) || size info == 0
              then (false, "credential empty or unreadable")
              else (true, "owner-only, readable, nonempty; content not displayed")),
          v,
        ))
          w

  -- `except (OSError,subprocess.TimeoutExpired)`
  pub caught : Exc → Action (Option ℕ × String)
  caught os_error = pure (none, "")
  caught process_error = pure (none, "")
  caught e = raise e

  -- `command`: an OSError and a timeout give -1, here none, and no text.
  pub command : List String → Action (Option ℕ × String)
  command args =
      catch (do r ← spawn m args; code ← of_result r.ending; pure (some code, strip r.stdout))
        caught

  abbrev pub succeeded : Option ℕ → Bool
  succeeded none = false
  succeeded (some code) = code == 0

  pub check_program : FilePath → String → Action (List Check)
  check_program root name = do
    (good, detail) ← executable_check (root // ("seesize-" <> name <> "-linux-amd64"))
    pure (add ("binary_" <> name) good detail)

  pub check_credential : FilePath → String → Action (List Check)
  check_credential root name = do
    (good, detail) ← credential_check (root // name)
    pure (add name good detail)

  abbrev pub usable_folder : FilePath → Fs → FilePath → Bool
  usable_folder root fs target =
      is_dir fs target
      && not (is_symlink fs target)
      && parent target == root
      && host.access fs target can_use

  pub check_folder : FilePath → String → Action (List Check)
  check_folder root name w = (
    ok (
        add ("directory_" <> name) (usable_folder root w.fs (root // name))
          "existing writable real directory required"),
    w,
  )

  abbrev pub valid_root : Fs → FilePath → Bool
  valid_root fs root = is_real fs root && is_dir fs root && not (root == []) && not (root == m.home)

  -- What stands below `if valid`.
  pub check_files : FilePath → Action (List Check)
  check_files root = do
    n ← stat_of m root
    let private_root =
        add "root_permissions" (private n) "current-user owned; group/other access denied"
    free ← (λ w. pure (m.free_bytes w.tick) w)
    let disk =
        add "free_disk" (leb (2 * 1024 ^ 3) free)
          (host.number_text free <> " bytes free; minimum 2 GiB")
    writable ← (λ w. pure (host.access w.fs root can_enter) w)
    let probe = add "root_writable" writable "permission check only; no probe file written"
    binaries ← gather programs (check_program root)
    tokens ← gather credentials (check_credential root)
    directories ← gather folders (check_folder root)
    pure (private_root ++ (disk ++ (probe ++ (binaries ++ (tokens ++ directories)))))

  pub check_root : FilePath → Action (List Check)
  check_root root w =
      let valid = valid_root w.fs root in
      (do
        rest ← (if valid then check_files root else pure [])
        pure (add "root" valid "dedicated existing directory, no symbolic path components" ++ rest))
        w

  pub check_user : Action (List Check)
  check_user = do
    (ran, user) ← command ("id" ∷ "-un" ∷ [])
    (code, linger) ← command ("loginctl" ∷ "show-user" ∷ user ∷ "-p" ∷ "Linger" ∷ "--value" ∷ [])
    (asked, state) ← command ("systemctl" ∷ "--user" ∷ "is-system-running" ∷ [])
    pure (
        add "linger" (succeeded code && linger == "yes")
          "required for user services without an interactive login"
        ++ (add "user_systemd" (state == "running" || state == "degraded")
              ("user manager state: " <> or_text state "unavailable")
            ++ (if state == "degraded"
                then caution "user_manager_health" false "some user unit failed; inspect separately"
                else [])))

  pub check_installed : String → Action (List Check)
  check_installed service = do
    (code, state) ← command ("systemctl" ∷ "--user" ∷ "is-active" ∷ service ∷ [])
    (status, enabled) ← command ("systemctl" ∷ "--user" ∷ "is-enabled" ∷ service ∷ [])
    pure (
        add service (succeeded code && state == "active") (or_text state "unavailable")
        ++ add (service <> "_enabled") (succeeded status && enabled == "enabled")
            (or_text enabled "unavailable"))

  pub check_unused : String → Action (List Check)
  check_unused service = do
    (code, loaded) ←
        command ("systemctl" ∷ "--user" ∷ "show" ∷ service ∷ "-p" ∷ "LoadState" ∷ "--value" ∷ [])
    pure (
        add (service <> "_unused") (loaded == "not-found")
          ("existing service must not be overwritten; LoadState=" <> loaded))

  pub check_service : Mode → String → Action (List Check)
  check_service installed = check_installed
  check_service install = check_unused

  pub check_port : Mode → ℕ → List Check
  check_port install port =
      if host.port_free port
      then add "port" true "loopback port available at check time; installer must recheck"
      else add "port" false "loopback port occupied"
  check_port installed port =
      add "healthz" (healthy (host.healthz port)) (healthz_detail (host.healthz port))

  pub all_checks : Args → Action (List Check)
  all_checks args = do
    let platform =
        add "platform" (m.system == "Linux" && m.architecture == "x86_64")
          "Linux x86_64 user-service deployment required"
    files ← check_root (m.absolute args.root)
    user ← check_user
    units ← gather services (check_service args.mode)
    pure (platform ++ (files ++ (user ++ (units ++ check_port args.mode args.port))))

  -- The report and the exit status; an error of the parser is a `SystemExit`.
  unfoldable pub main : Args → Action (ℕ × List Check)
  unfolding healthy healthz_detail caught command check_program check_credential check_folder
      check_files check_root check_user check_port check_service check_installed check_unused
      all_checks
  main args = do
    raise_if (not (leb 1024 args.port && leb args.port 65535))
        (system_exit "port must be 1024..65535")
    checks ← all_checks args
    pure (if blockers checks == 0 then 0 else 1, checks)
