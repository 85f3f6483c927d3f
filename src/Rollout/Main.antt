-- ===== src/Rollout/Main.antt =====
-- scripts/deploy-secret-fix-20260927.py: the script's body. `Desk` has the user and what `json.dumps`
-- writes of the report, whose times and observations are not followed.
pub mod Recovery
pub mod Timers
use see_size.Base.{
  ℕ, ◌==◌, nat_eq, string_eq, list_eq, String, ◌<>◌, Bool, true, false, not, ◌&&◌, ◌||◌, Option,
  none, some, List, [], ◌∷◌, ◌++◌, if◌then◌else◌, bit_and,
}
use see_size.Base.Dict.{Dict}
use see_size.Fs.{FilePath, ◌//◌, Bytes, Fs, exists, is_dir, path_text}
use see_size.Script.{
  Machine, World, Exc, runtime_error, system_exit, is_exception, Result, ok, err, Action, pure,
  raise, ◌>>=◌, ◌>>◌, raise_if, each, gets, catch,
}
use see_size.Script.Files.{copy_file, stat_of, write, run_checked}
use see_size.Setup.Cache.{refuse}
use see_size.Upgrade.{is_real}
use see_size.Rollout.{
  Site, root, stage, bundle, release, timers, services, binary, sha, user_service, state, configs,
  health, observe, api_check, switch,
}

-- `report['status']`
pub data Status : Type 0 where
  running passed rolled_back aborted : Status

-- How the `try` with its handler ends, and what it leaves in the report.
pub record Ending : Type 0 where
  pub result : Result (Unit {0})
  pub status : Status
  pub error : Option Exc

pub record Desk : Type 0 where
  pub uid : ℕ
  pub report : ℕ → Ending → List String → Dict String String → Dict String String → Bytes

abbrev pub old_hash : String → String
old_hash c =
    if c == "hub"
    then "78beb8d7f29a387898f695ffcd1fa318a99ea9a27a93f091b4ee4df5e2aa714d"
    else "a5aa4047fbbd8aebbb375991c9c46b7dd918291c664a53f9129e9c20a89c84eb"

abbrev pub new_hash : String → String
new_hash c =
    if c == "hub"
    then "56e9bb7955992d7054d25098d05bfe660ad641cf3d9b6898418ba8d20a052859"
    else "8951d75c847e210202ba668a4f3d55d00b144ca698efe850560e6f2c70a54d91"

abbrev both : List String
both = "hub" ∷ "agent" ∷ []

-- `configs()==before_configs`
same_configs : Dict String String → Dict String String → Bool
same_configs [] [] = true
same_configs ((u, h) ∷ d) ((v, k) ∷ e) = u == v && h == k && same_configs d e
same_configs _ _ = false

-- `a` in a `try`: what it ends with is at hand.
unfoldable pub attempt : Action (Unit {0}) → Action (Result (Unit {0}))
attempt a w = let (r, v) = a w in (ok r, v)

module _ (m : Machine) (site : Site) where
  module _ (desk : Desk) where
    check_build : String → Action (Unit {0})
    check_build c = do
      here ← sha m site (binary root c)
      raise_if (not (here == old_hash c)) (system_exit "Unexpected build")
      there ← sha m site (binary stage c)
      raise_if (not (there == new_hash c)) (system_exit "Unexpected build")

    check_active : String → Action (Unit {0})
    check_active u = do
      now ← state m site u
      raise_if (not (now == "active")) (system_exit ("Expected active " <> u))

    -- Everything before the `try`, and the configurations.
    check_before : Action (Dict String String)
    check_before = do
      refuse (λ fs. not (is_real fs root)) (system_exit "Unsafe production root")
      n ← stat_of m root
      raise_if (not (n.uid == desk.uid) || not (bit_and n.mode 0o077 == 0))
          (system_exit "Unsafe production root")
      refuse (λ fs. not (is_real fs stage) || exists fs bundle)
          (system_exit "Unsafe or reused release")
      each both check_build
      each (services ++ timers) check_active
      before ← configs m site
      health m site
      api_check m site
      pure before

  pub check_inactive : String → Action (Unit {0})
  check_inactive service = do
    now ← state m site service
    raise_if (not (now == "inactive")) (runtime_error "Background task active; aborting")

  pub prepare_command : List String
  prepare_command =
      "python3"
      ∷ path_text (stage // "upgrade-prepare.py")
      ∷ "--root"
      ∷ path_text root
      ∷ "--release"
      ∷ release
      ∷ "--prepare"
      ∷ "--candidate"
      ∷ ("hub=" <> path_text (binary stage "hub"))
      ∷ "--sha256"
      ∷ ("hub=" <> new_hash "hub")
      ∷ "--candidate"
      ∷ ("agent=" <> path_text (binary stage "agent"))
      ∷ "--sha256"
      ∷ ("agent=" <> new_hash "agent")
      ∷ []

  pub stop_timer : String → Action (Unit {0})
  stop_timer t = do stopped ← user_service m site ("stop" ∷ t ∷ []); pure tt

  -- The `try` up to `changed=True`.
  pub prepare : Action (Unit {0})
  prepare = do
    each timers stop_timer
    each ("seesize-backup.service" ∷ "seesize-maintenance.service" ∷ []) check_inactive
    prepared ← run_checked m prepare_command
    copy_file m (stage // "upgrade-prepare.py") (bundle // "upgrade-prepare.py")

  -- The `try` after that.
  pub change_over : Dict String String → Action (Unit {0})
  change_over before = do
    switch m site "hub" (bundle // "candidates") (new_hash "hub")
    times ← observe m site "hub-upgraded"
    api_check m site
    switch m site "agent" (bundle // "candidates") (new_hash "agent")
    later ← observe m site "pair-upgraded"
    api_check m site
    now ← configs m site
    raise_if (not (same_configs now before)) (runtime_error "Service configuration changed")

  -- `if changed` in the handler.
  pub roll_back : Action (Unit {0})
  roll_back = do
    switch m site "agent" bundle (old_hash "agent")
    switch m site "hub" bundle (old_hash "hub")
    times ← observe m site "rollback"
    api_check m site

  abbrev cut_short : Exc → Ending
  cut_short e = record { result = err e; status = running; error = none }

  pub after_prepare : Exc → Action Ending
  after_prepare e = pure (
      if is_exception e
      then record { result = err e; status = aborted; error = some e }
      else cut_short e)

  -- The exception of a roll back that fails takes the other's place.
  pub ended_back : Exc → Result (Unit {0}) → Ending
  ended_back e (ok u) = record { result = err e; status = rolled_back; error = some e }
  ended_back e (err f) = record { result = err f; status = running; error = some e }

  pub after_change : Exc → Action Ending
  after_change e =
      if is_exception e
      then (do back ← attempt roll_back; pure (ended_back e back))
      else pure (cut_short e)

  pub on_change : Result (Unit {0}) → Action Ending
  on_change (ok u) = pure (record { result = ok tt; status = passed; error = none })
  on_change (err e) = after_change e

  pub on_prepare : Dict String String → Result (Unit {0}) → Action Ending
  on_prepare before (err e) = after_prepare e
  on_prepare before (ok u) = do changed ← attempt (change_over before); on_change changed

  -- The `try` with its handler.
  unfoldable pub rollout : Dict String String → Action Ending
  unfolding same_configs check_inactive prepare_command stop_timer prepare change_over roll_back
      after_prepare ended_back after_change on_change on_prepare
  rollout before = do prepared ← attempt prepare; on_prepare before prepared

  -- `except Exception: timer_errors.append(timer)`
  pub start_timers : List String → Action (List String)
  start_timers [] = pure []
  start_timers (t ∷ ts) = do
    failed ←
        catch (do started ← user_service m site ("start" ∷ t ∷ []); pure [])
          (λ e. if is_exception e then pure (t ∷ []) else raise e)
    rest ← start_timers ts
    pure (failed ++ rest)

  pub final_hashes : List String → Action (Dict String String)
  final_hashes [] = pure []
  final_hashes (c ∷ cs) = do
    hash ← sha m site (binary root c)
    rest ← final_hashes cs
    pure ((c, hash) ∷ rest)

  pub final_states : List String → Action (Dict String String)
  final_states [] = pure []
  final_states (u ∷ us) = do now ← state m site u; rest ← final_states us; pure ((u, now) ∷ rest)

  -- The `finally`, and what the script ends with.
  pub conclude : Desk → Ending → Action (Unit {0})
  conclude desk ending = do
    failed ← start_timers timers
    hashes ← final_hashes both
    states ← final_states (services ++ timers)
    in_bundle ← gets (λ fs. is_dir fs bundle)
    text ← (λ w. (ok (desk.report w.tick ending failed hashes states), w))
    write m ((if in_bundle then bundle else stage) // "deployment-result.json") text 0o644
    raise_if (not (failed == [])) (runtime_error "Timer restoration failed")
    λ w. (ending.result, w)

  unfoldable pub main : Desk → Action (Unit {0})
  unfolding check_build check_active check_before start_timers final_hashes final_states conclude
  main desk = do before ← check_before desk; ending ← rollout before; conclude desk ending
