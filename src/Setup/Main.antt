-- ===== src/Setup/Main.antt =====
-- scripts/agent-setup.py: `main` behind the command line, and what becomes of its exceptions.
use see_size.Base.{nat_eq, string_eq, list_eq, String, not, Option, [], if◌then◌else◌, is_some}
use see_size.Base.Dict.{lookup}
use see_size.Fs.{FilePath, ◌//◌, is_symlink, owned_by}
use see_size.Script.{
  Machine, Exc, value_error, os_error, process_error, system_exit, interrupt, Action, pure, raise,
  ◌>>=◌, ◌>>◌, catch, or_raise,
}
use see_size.Script.Files.{change, write}
use see_size.Setup.Cache.{refuse}
use see_size.Setup.Install.{install, check_update}
use see_size.Setup.Preflight.{preflight}
use see_size.Setup.Register.{register}
use see_size.Setup.Update.{update}

pub data Command : Type 0 where
  install_agent register_agent check_agent update_agent : Command

pub record Args : Type 0 where
  pub command : Command
  pub version : Option String
  pub bundle : Option FilePath

abbrev pub lock_file : FilePath
lock_file = [] // "run" // "lock" // "seesize-agent-setup.lock"

module _ (m : Machine) where
  -- `os.open` with O_CREAT and O_NOFOLLOW, the test of the owner, and `flock` without waiting.
  take_lock : Action (Unit {0})
  take_lock = do
    refuse (λ fs. is_symlink fs lock_file) os_error
    λ w.
        if is_some (lookup lock_file w.fs)
        then change m (λ fs. fs) w
        else write m lock_file [] 0o600 w
    refuse (λ fs. not (owned_by 0 fs lock_file)) (value_error "Unsafe lock owner")
    change m (λ fs. fs)

  required : Option String → Action String
  required v = or_raise v (system_exit "--version required")

  under_lock : Action (Unit {0}) → Action (Unit {0})
  under_lock action = do preflight m; take_lock; action

  unfoldable pub main : Args → Action (Unit {0})
  unfolding take_lock required under_lock
  main args = elim args.command [
    | install_agent ↦ do v ← required args.version; under_lock (install m v args.bundle)
    | register_agent ↦ under_lock (register m)
    | check_agent ↦ do v ← required args.version; shown ← check_update m v args.bundle; pure tt
    | update_agent ↦ do
      v ← required args.version
      under_lock (do ending ← update m v args.bundle; pure tt)
  ]

  -- What the operator sees of an exception.
  pub report : Exc → Exc
  report interrupt =
      system_exit
        "Cancelled. Download preparation does not stop the existing Agent. If replacement had started, inspect service status and any retained recovery directory."
  report (value_error s) = system_exit s
  report os_error = system_exit "OSError"
  report process_error = system_exit "SubprocessError"
  report e = e

  unfoldable pub run : Args → Action (Unit {0})
  unfolding report
  run args = catch (main args) (λ e. raise (report e))
