-- ===== src/ChartHub/Main.antt =====
-- scripts/deploy-chart-hub.py: `main`, and the release of scripts/deploy-disk-hub.py, which runs it
-- with its own names and probe. Another process that holds the lock shows as a failing lock call.
pub mod Keep
pub mod Restore
pub mod Wait
pub mod Timers
pub mod Others
pub mod Deploy
pub mod Safety
use see_size.Base.{
  ℕ, ◌+◌, zero, suc, ◌==◌, nat_eq, string_eq, list_eq, String, ◌<>◌, Bool, true, false, not, ◌||◌,
  Option, none, some, List, [], ◌∷◌, if◌then◌else◌, bit_and, is_some, ltb,
}
use see_size.Base.Dict.{lookup}
use see_size.Fs.{FilePath, ◌//◌, Bytes, is_dir, is_symlink, path_text}
use see_size.Json.{Json, boolean, number, text, object, Fields, end, field}
use see_size.Script.{
  Machine, World, Exc, runtime_error, crash, is_exception, Action, pure, raise, ◌>>=◌, ◌>>◌,
  raise_if, catch, finally, each, gets,
}
use see_size.Script.Checked.{lift}
use see_size.Script.Files.{change, read, stat_of, write, copy_file, chmod, rename, run_checked}
use see_size.Setup.Checks.Hub.{strip}
use see_size.Upgrade.{is_real}
use see_size.Rollout.{root}
use see_size.ChartHub.{Web, Response, Report, assert, is_above, request, probe, disk_probe}

-- Which script runs.
pub data Edition : Type 0 where
  charts disks : Edition

abbrev pub release : Edition → String
release charts = "charts-20261020-e0f1030"
release disks = "disk-20261021-174b91a"

abbrev pub stage : Edition → FilePath
stage charts = root // "restore-check-chart-deploy-e0f1030"
stage disks = root // "restore-check-disk-deploy-174b91a"

abbrev pub expected : Edition → String
expected charts = "aa208982928dfaef26b78f65dc8969b7e0129a0833b99ca09d0c678711275e5d"
expected disks = "9d0f8d971d90ff347f67d66782f81887c027905332fd66b91bf55d43e4f829ff"

abbrev pub timers : List String
timers = "seesize-maintenance.timer" ∷ "seesize-backup.timer" ∷ []

abbrev pub hub_name : String
hub_name = "seesize-hub-linux-amd64"

abbrev pub live : FilePath
live = root // hub_name

abbrev pub candidate : Edition → FilePath
candidate e = stage e // hub_name

abbrev pub rollback : Edition → FilePath
rollback e = root // ("pre-" <> release e)

abbrev pub checked_files : List FilePath
checked_files =
    (root // "seesize-agent-linux-amd64") ∷ (root // "admin.token") ∷ (root // "agent.token") ∷ []

-- What the script has noted before its `try`.
pub record Before : Type 0 where
  pub unchanged : List (FilePath × String)
  pub configs : String
  pub agent_pid : String
  pub original : List (String × String)

-- `state(service) in ('active','activating','deactivating')`
abbrev busy : String → Bool
busy s = s == "active" || s == "activating" || s == "deactivating"

trend_points : List (String × ℕ) → Fields
trend_points [] = end
trend_points ((span, count) ∷ rest) = field span (number (some count)) (trend_points rest)

report_of : Edition → String → String → Report → Report → Json
report_of e started finished before after = object (
    field "status" (text "PASS") (
      field "started_at" (text started) (
        field "finished_at" (text finished) (
          field "hub_sha256" (text (expected e)) (
            field "rollback" (text (path_text (rollback e))) (
              field "heartbeat_before" before.last_seen (
                field "heartbeat_after" after.last_seen (
                  field "trend_points" (object (trend_points after.points)) (
                    field "agent_pid_unchanged" (boolean true)
                      (field "credentials_and_config_unchanged" (boolean true) end))))))))))

abbrev pub prepare_command : Edition → List String
prepare_command e =
    "python3"
    ∷ path_text (stage e // "upgrade-prepare.py")
    ∷ "--root"
    ∷ path_text root
    ∷ "--release"
    ∷ release e
    ∷ "--candidate"
    ∷ ("hub=" <> path_text (candidate e))
    ∷ "--sha256"
    ∷ ("hub=" <> expected e)
    ∷ "--prepare"
    ∷ []

abbrev pub lock_path : FilePath
lock_path = root // ".maintenance.lock"

module _ (m : Machine) (web : Web) where
  pub digest : FilePath → Action String
  digest p = do body ← read m p; pure (m.sha256 body)

  -- `run('systemctl','--user',…)`, and `check_output` of the same.
  pub user_service : List String → Action String
  user_service args = run_checked m ("systemctl" ∷ "--user" ∷ args)

  pub service : List String → Action (Unit {0})
  service args = do shown ← user_service args; pure tt

  pub state : String → Action String
  state unit = do
    shown ← user_service ("show" ∷ unit ∷ "-p" ∷ "ActiveState" ∷ "--value" ∷ [])
    pure (strip shown)

  pub states : List String → Action (List (String × String))
  states [] = pure []
  states (u ∷ us) = do now ← state u; rest ← states us; pure ((u, now) ∷ rest)

  pub digests : List FilePath → Action (List (FilePath × String))
  digests [] = pure []
  digests (p ∷ ps) = do hash ← digest p; rest ← digests ps; pure ((p, hash) ∷ rest)

  pub read_configs : Action String
  read_configs = user_service ("cat" ∷ "seesize-hub" ∷ [])

  pub read_pid : Action String
  read_pid = do
    shown ← user_service ("show" ∷ "seesize-agent" ∷ "-p" ∷ "MainPID" ∷ "--value" ∷ [])
    pure (strip shown)

  pub assert_active : String → Action (Unit {0})
  assert_active unit = do now ← state unit; assert (now == "active")

  -- `time.sleep(…)`, which can be interrupted.
  pub sleep : Action (Unit {0})
  sleep = change m (λ fs. fs)

  -- `main` up to `activated=False`.
  pub check_before : Edition → Action Before
  check_before e = do
    real ← gets (λ fs. is_real fs root)
    assert real
    n ← stat_of m root
    assert (bit_and n.mode 0o077 == 0)
    real_stage ← gets (λ fs. is_real fs (stage e))
    assert real_stage
    folder_stage ← gets (λ fs. is_dir fs (stage e))
    assert folder_stage
    hash ← digest (candidate e)
    assert (hash == expected e)
    unchanged ← digests checked_files
    configs ← read_configs
    pid ← read_pid
    original ← states timers
    each ("seesize-hub" ∷ "seesize-agent" ∷ []) assert_active
    pure (record { unchanged = unchanged; configs = configs; agent_pid = pid; original = original })

  pub stop_timer : String → Action (Unit {0})
  stop_timer t = service ("stop" ∷ t ∷ [])

  -- A service that is busy: until the deadline, another round after a second.
  pub busy_round : ℕ → Action (Unit {0}) → Action (Unit {0})
  busy_round deadline next = do
    late ← (λ w. pure (ltb deadline (web.monotonic w.tick)) w)
    raise_if late (runtime_error "Maintenance/backup still running")
    sleep
    next

  -- The `while`, with fuel.
  unfoldable pub wait : ℕ → ℕ → String → Action (Unit {0})
  wait zero deadline unit = raise crash
  wait (suc fuel) deadline unit = do
    now ← state unit
    if busy now then busy_round deadline (wait fuel deadline unit) else pure tt

  -- `time.monotonic()+120`
  pub deadline_from : Action ℕ
  deadline_from w = (pure (web.monotonic w.tick + 120000000000)) w

  -- `open('a')` and `flock`.
  pub take_lock : Action (Unit {0})
  take_lock = do
    λ w.
        if is_some (lookup lock_path w.fs)
        then change m (λ fs. fs) w
        else write m lock_path [] 0o644 w
    change m (λ fs. fs)

  -- The copy through a file in the stage, and the start.
  pub put_in_place : FilePath → FilePath → Action (Unit {0})
  put_in_place source replacement = do
    copy_file m source replacement
    chmod m replacement 0o700
    rename m replacement live
    service ("start" ∷ "seesize-hub" ∷ [])

  pub one_try : Action (Unit {0})
  one_try = do response ← request m web "/healthz" none none; assert (response.status == 200)

  -- `except Exception`, with tries left.
  pub try_again : Action (Unit {0}) → Exc → Action (Unit {0})
  try_again next e = if is_exception e then sleep >> next else raise e

  pub await_health : ℕ → Action (Unit {0})
  await_health zero = one_try
  await_health (suc n) = catch one_try (try_again (await_health n))

  pub assert_unchanged : FilePath × String → Action (Unit {0})
  assert_unchanged (p, h) = do hash ← digest p; assert (hash == h)

  pub probe_of : Edition → Action Report
  probe_of charts = probe m web
  probe_of disks = disk_probe m web

  -- What is watched of the new Hub.
  pub observe : Edition → Before → Action (Report × Report)
  observe e b = do
    await_health 19
    before ← probe_of e
    sleep
    after ← probe_of e
    advanced ← lift (is_above web after.last_seen before.last_seen)
    assert advanced
    each b.unchanged assert_unchanged
    configs ← read_configs
    assert (configs == b.configs)
    pid ← read_pid
    assert (pid == b.agent_pid)
    hash ← digest live
    assert (hash == expected e)
    pure (before, after)

  -- The inner `try` after `activated=True`.
  pub bring_up : Edition → Before → Action (Report × Report)
  bring_up e b = do put_in_place (candidate e) (stage e // "activate-hub"); observe e b

  -- Its handler; before `activated=True` it does nothing.
  pub restore : Edition → Action (Unit {0})
  restore e = do
    service ("stop" ∷ "seesize-hub" ∷ [])
    put_in_place (rollback e // hub_name) (stage e // "rollback-hub")

  unfoldable pub activate : Edition → Before → Action (Report × Report)
  unfolding put_in_place one_try try_again await_health assert_unchanged probe_of observe bring_up
      restore
  activate e b = do
    service ("stop" ∷ "seesize-hub" ∷ [])
    catch (bring_up e b) (λ raised. do restore e; raise raised)

  pub write_report : Edition → String → Report × Report → Action (Unit {0})
  write_report e started reports = do
    finished ← (λ w. pure (m.now_text w.tick) w)
    write m (stage e // "deployment-result.json")
        (m.dump_indented (report_of e started finished reports.0 reports.1)) 0o644

  -- The outer `try`.
  pub deploy : Edition → Before → String → Action (Unit {0})
  deploy e b started = do
    each timers stop_timer
    deadline ← deadline_from
    each ("seesize-maintenance.service" ∷ "seesize-backup.service" ∷ []) (wait 122 deadline)
    prepared ← run_checked m (prepare_command e)
    take_lock
    reports ← activate e b
    write_report e started reports

  -- Its `finally`.
  unfoldable pub start_again : List (String × String) → Action (Unit {0})
  start_again [] = pure tt
  start_again ((t, previous) ∷ rest) = do
    if previous == "active" then service ("start" ∷ t ∷ []) else pure tt
    start_again rest

  unfoldable pub main : Edition → Action (Unit {0})
  unfolding digest user_service service state states digests read_configs read_pid assert_active
      sleep check_before stop_timer busy_round deadline_from take_lock trend_points report_of
      write_report deploy
  main e = do
    before ← check_before e
    started ← (λ w. pure (m.now_text w.tick) w)
    finally (deploy e before started) (start_again before.original)
