-- ===== src/Setup/Update.antt =====
-- scripts/agent-setup.py: `update`, cut where its work begins: the checks of what is installed, the
-- staging of the new package, and the switch with its rollback.
pub mod Slots
pub mod Install
pub mod Rollback
pub mod Switch
pub mod Stage
pub mod Recovery
pub mod Inspect
pub mod Safety
use see_size.Base.{
  ℕ, ◌+◌, ◌==◌, nat_eq, string_eq, list_eq, String, ◌<>◌, Bool, true, false, not, ◌||◌, Option,
  none, some, List, [], ◌∷◌, ◌++◌, ◌*◌, if◌then◌else◌, ltb, bit_and, length,
}
use see_size.Base.Text.{codes, splitlines, after}
use see_size.Fs.{
  FilePath, ◌//◌, Bytes, Fs, is_symlink, is_file, exists, path_text, stat, size, holds,
}
use see_size.Script.{
  Machine, World, Exc, value_error, interrupt, system_exit, crash, process_error, is_exception,
  Action, Result, ok, err, pure, raise, ◌>>=◌, ◌>>◌, gets, raise_if, or_raise, catch, each,
}
use see_size.Script.Checked.{lift}
use see_size.Script.Files.{
  change, write, read, stat_of, copy_file, unlink, mkdir, rmtree, rename_folder, run_checked,
  run_status, read_line,
}
use see_size.Setup.{
  root, data_folder, unit, unit_name, account, agent_program, components, package_files, repo,
  max_binary,
}
use see_size.Setup.Checks.Version.{version}
use see_size.Setup.Checks.Hub.{strip}
use see_size.Setup.Checks.Manifest.{
  Release, manifest, hash_of, saved_release, Connection, saved_connection,
}
use see_size.Setup.Checks.Binary.{validate_binary}
use see_size.Setup.Fetch.{fetch}
use see_size.Setup.Cache.{refuse, release_binary}
use see_size.Setup.Preflight.{preflight}
use see_size.Setup.Replace.{atomic_copy, update_workspace, validate_rollback, marker}

abbrev pub token : FilePath
token = data_folder // "agent.token"

abbrev pub rollback : FilePath
rollback = root // "rollback"

abbrev pub candidate_of : FilePath → FilePath
candidate_of work = work // "candidate"

abbrev pub previous_of : FilePath → FilePath
previous_of work = work // "previous"

-- `starts`: what follows `ExecStart=` on the unit's lines.
unfoldable pub exec_starts : List (List ℕ) → List (List ℕ)
exec_starts [] = []
exec_starts (l ∷ ls) =
    let rest = exec_starts ls in
    elim (after (codes "ExecStart=") l) [ none ↦ rest | some args ↦ args ∷ rest ]

unfoldable pub in_root : List String → List FilePath
in_root [] = []
in_root (n ∷ ns) = (root // n) ∷ in_root ns

-- What is installed, as the checks found it.
pub record Installed : Type 0 where
  pub current : Release
  pub expected_args : List String

-- How a run ends that raises nothing.
pub data Ending : Type 0 where
  cancelled replaced : Ending

module _ (m : Machine) where
  -- `path.is_symlink() or path.stat().st_uid != uid or path.stat().st_mode & mask`
  pub refuse_unowned : ℕ → ℕ → Exc → FilePath → Action (Unit {0})
  refuse_unowned uid mask e p = do
    refuse (λ fs. is_symlink fs p) e
    n ← stat_of m p
    raise_if (not (n.uid == uid) || not (bit_and n.mode mask == 0)) e

  pub check_program : FilePath → Release → String → Action (Unit {0})
  check_program folder release name = do
    body ← read m (folder // name)
    hash ← lift (hash_of release name)
    lift (validate_binary m body hash)

  pub property : String → Action String
  property p = run_checked m ("systemctl" ∷ "show" ∷ unit_name ∷ "-p" ∷ p ∷ "--value" ∷ [])

  -- `pwd.getpwnam(name).pw_uid`
  pub uid_of : String → Action ℕ
  uid_of name w = or_raise (m.account w.tick name) crash w

  unfoldable pub agent_args : Connection → List String
  agent_args c =
      path_text (root // agent_program)
      ∷ "-hub"
      ∷ c.hub
      ∷ "-id"
      ∷ c.identity
      ∷ "-token-file"
      ∷ path_text token
      ∷ "-interval"
      ∷ "10s"
      ∷ []

  -- The unit starts the agent with these arguments and no others.
  unfoldable pub check_unit : List String → Bytes → Result (Unit {0})
  check_unit expected text = elim (exec_starts (splitlines text)) [
    | start ∷ [] ↦ elim (m.shlex_split start) [
      | none ↦ err (value_error "No closing quotation")
      | some args ↦
          if args == expected
          then ok tt
          else err (value_error "Custom service arguments require manual upgrade")
    ]
    | _ ↦ err (value_error "Custom service arguments require manual upgrade")
  ]

  pub inspect : Action Installed
  inspect = do
    preflight m
    raise_if (not m.is_terminal) (value_error "Interactive confirmation required")
    each (root ∷ unit ∷ (root // "connection.json") ∷ in_root package_files)
        (refuse_unowned 0 0o022 (value_error "Unsafe installed path"))
    raw ← read m (root // "agent-release.json")
    current ← lift (saved_release m raw)
    each components (check_program root current)
    saved ← read m (root // "connection.json")
    connection ← lift (saved_connection m saved)
    uid ← uid_of account
    each (data_folder ∷ token ∷ [])
        (refuse_unowned uid 0o077 (value_error "Unsafe credential path"))
    refuse (λ fs. not (is_file fs token) || holds (λ n. size n == 0) (stat fs token))
        (value_error "Missing credential")
    text ← read m unit
    lift (check_unit (agent_args connection) text)
    overrides ← property "DropInPaths"
    raise_if (not (strip overrides == "")) (value_error "Service overrides require manual upgrade")
    state ← property "ActiveState"
    raise_if (not (strip state == "active"))
        (value_error "Start and verify existing service before updating")
    validate_rollback rollback package_files
    pure (record { current = current; expected_args = agent_args connection })

  pub stop_service : Action String
  stop_service = run_checked m ("systemctl" ∷ "stop" ∷ unit_name ∷ [])

  pub start_service : Action String
  start_service = run_checked m ("systemctl" ∷ "start" ∷ unit_name ∷ [])

  -- `(source / name).read_bytes()` of a bundle, or a download.
  pub obtain : Option FilePath → String → Action Bytes → Action Bytes
  obtain none name download = download
  obtain (some bundle) name download = read m (bundle // name)

  -- A program from the bundle or the network, checked, goes into the folder.
  pub stage_program : FilePath → Release → String → Option FilePath → String → Action (Unit {0})
  stage_program folder desired target bundle name = do
    hash ← lift (hash_of desired name)
    body ← obtain bundle name (release_binary m target name hash)
    raise_if (ltb max_binary (length body)) (value_error "Binary too large")
    lift (validate_binary m body hash)
    write m (folder // name) body 0o644

  -- Everything that is checked and stored before the operator is asked.
  pub stage : FilePath → String → Option FilePath → Action (Unit {0})
  stage work target bundle = do
    mkdir m (candidate_of work) 0o755
    mkdir m (previous_of work) 0o755
    raw ←
        obtain bundle "agent-release.json"
          (fetch m (repo <> target <> "/agent-release.json") (64 * 1024))
    desired ← lift (manifest m raw target)
    each components (stage_program (candidate_of work) desired target bundle)
    write m (candidate_of work // "agent-release.json") raw 0o644
    copy_file m m.own_file (candidate_of work // "agent-setup.py")

  pub save : FilePath → Action (Unit {0})
  save work = each package_files (λ n. copy_file m (root // n) (previous_of work // n))

  -- `{p: hashlib.sha256(p.read_bytes()).digest() for p in …}`
  pub digests : List FilePath → Action (List (FilePath × String))
  digests [] = pure []
  digests (p ∷ ps) = do body ← read m p; rest ← digests ps; pure ((p, m.sha256 body) ∷ rest)

  pub verify_running : List String → List (FilePath × String) → Action (Unit {0})
  verify_running expected unchanged = do
    code ← run_status m ("runuser" ∷ "-u" ∷ account ∷ "--" ∷ expected ++ "-once" ∷ [])
    raise_if (not (code == 0)) (value_error "Agent heartbeat probe failed")
    state ← property "ActiveState"
    raise_if (not (strip state == "active")) (value_error "Agent service not active")
    each unchanged λ (p, hash). do
      body ← read m p
      raise_if (not (m.sha256 body == hash)) (value_error "Protected configuration changed")

  pub install_from : FilePath → Action (Unit {0})
  install_from folder = each package_files (λ n. atomic_copy m (folder // n) (root // n))

  -- The body of the handler of `except (Exception, KeyboardInterrupt)`.
  pub roll_back : FilePath → Action (Unit {0}) → Action (Unit {0})
  roll_back work verify = do
    stop_service
    install_from (previous_of work)
    start_service
    catch verify (λ x. raise (
        if is_exception x
        then value_error
            "Old files restored, but heartbeat verification failed; check network and service. No database or credential was restored."
        else x))
    unlink m (marker work)
    raise (value_error "Update failed; old package restored and heartbeat verified")

  pub restore : FilePath → Action (Unit {0}) → Exc → Action (Unit {0})
  restore work verify (system_exit s) = raise (system_exit s)
  restore work verify _ = roll_back work verify

  pub remove_rollback : Action (Unit {0})
  remove_rollback w = if exists w.fs rollback then rmtree m rollback w else (ok tt, w)

  -- From the marker to the end of the `with` block.
  pub switch : FilePath → Action (Unit {0}) → Action (Unit {0})
  switch work verify = do
    write m (marker work) (codes "Keep previous/ until successful update or verified rollback.\n")
        0o644
    stop_service
    catch (do install_from (candidate_of work); start_service; verify) (restore work verify)
    validate_rollback rollback package_files
    remove_rollback
    rename_folder m (previous_of work) rollback
    unlink m (marker work)

  -- The body of the `with` block.
  pub replace_package : List String → String → Option FilePath → FilePath → Action Ending
  replace_package expected target bundle work = do
    stage work target bundle
    answer ← read_line m
    if not (strip answer == "update") then pure cancelled else do
      save work
      unchanged ← digests (unit ∷ (root // "connection.json") ∷ token ∷ [])
      switch work (verify_running expected unchanged)
      pure replaced

  unfoldable pub update : String → Option FilePath → Action Ending
  unfolding exec_starts refuse_unowned check_program property uid_of agent_args check_unit in_root
      inspect stop_service start_service obtain stage_program stage save digests verify_running
      install_from roll_back restore remove_rollback switch replace_package
  update requested bundle = do
    installed ← inspect
    target ← lift (version m requested)
    raise_if (target == installed.current.version)
        (value_error "Already this package version; no replacement")
    update_workspace m (replace_package installed.expected_args target bundle)
