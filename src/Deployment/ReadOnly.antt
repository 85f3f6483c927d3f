-- ===== src/Deployment/ReadOnly.antt =====
-- The check of a deployment only asks: it changes no file, and its commands are queries.
use see_size.Base.{
  ℕ, ◌==◌, nat_eq, string_eq, list_eq, String, ◌≡◌, refl, Bool, true, false, not, ◌&&◌, ◌||◌, List,
  [], ◌∷◌, All, arith, contains,
}
use see_size.Fs.{FilePath, Fs, is_symlink, is_file}
use see_size.Script.{
  Machine, World, Exc, value_error, runtime_error, crash, system_exit, interrupt, os_error,
  process_error, Action,
}
use see_size.Script.Files.{spawn}
use see_size.Script.Rules.{
  Outcome, Keeps, Triple-bind, Triple-catch, Outcome-if, Keeps-if, Keeps-pure, Keeps-raise,
  Keeps-raise_if, lift-Keeps,
}
use see_size.Script.Frame.{read-Keeps, stat_of_lem}
use see_size.Deployment.{
  Host, Args, Mode, install, installed, Check, gather, programs, credentials, folders, services,
  can_execute, executable_check, credential_check, check_program, check_credential, check_folder,
  check_files, check_root, valid_root, caught, command, check_user, check_installed, check_unused,
  check_service, all_checks, main,
}

asks_user : List String → Bool
asks_user (user ∷ verb ∷ rest) =
    user == "--user"
    && contains ("is-system-running" ∷ "is-active" ∷ "is-enabled" ∷ "show" ∷ []) verb
asks_user _ = false

-- `id`, `loginctl show-user`, and the verbs of `systemctl --user` that ask.
unfoldable pub is_query : List String → Bool
unfolding asks_user
is_query (program ∷ verb ∷ rest) =
    program == "id"
    || (program == "loginctl" && verb == "show-user")
    || (program == "systemctl" && asks_user (verb ∷ rest))
is_query _ = false

-- Queries that change no file.
abbrev pub QuietQueries : Machine → Type 0
QuietQueries m =
    (i : ℕ) (args : List String) (fs : Fs) → is_query args ≡ true → (m.shell i args fs).fs ≡ fs

-- As in the first state, but for queries that were started since.
abbrev pub Asked : World → World → Type 0
Asked w v = (v.fs ≡ w.fs) × All (λ (args : List String). is_query args ≡ true) v.commands

module _ (m : Machine) (host : Host) (w : World) (calm : QuietQueries m) where
  spawn-Asked : (args : List String) → is_query args ≡ true → Keeps (Asked w) (spawn m args)
  unfolding spawn
  spawn-Asked args q = record { run = λ v k. (ground (arith, calm v.tick args v.fs q), (q, k.1)) }

  caught-Asked : (e : Exc) → Keeps (Asked w) (caught m host e)
  unfolding caught
  caught-Asked (value_error s) = Keeps-raise _
  caught-Asked (runtime_error s) = Keeps-raise _
  caught-Asked os_error = Keeps-pure _
  caught-Asked process_error = Keeps-pure _
  caught-Asked crash = Keeps-raise _
  caught-Asked (system_exit s) = Keeps-raise _
  caught-Asked interrupt = Keeps-raise _

  command-Asked :
      (args : List String) → is_query args ≡ true → Keeps (Asked w) (command m host args)
  unfolding command
  command-Asked args q =
      Triple-catch
        (Triple-bind (spawn-Asked args q)
          λ r. Triple-bind (lift-Keeps r.ending) λ code. Keeps-pure _)
        caught-Asked

  executable_check-Asked : (p : FilePath) → Keeps (Asked w) (executable_check m host p)
  unfolding executable_check
  executable_check-Asked p = record {
    run = λ v k.
        Outcome-if _ _ (is_symlink v.fs p || not (is_file v.fs p)) _ _ (λ _. k)
          (λ _.
            Outcome-if _ _ (not (host.access v.fs p can_execute)) _ _ (λ _. k)
              (λ _. (Triple-bind (read-Keeps m p) λ header. Keeps-pure _).run v k));
  }

  credential_check-Asked : (p : FilePath) → Keeps (Asked w) (credential_check m host p)
  unfolding credential_check
  credential_check-Asked p = record {
    run = λ v k.
        Outcome-if _ _ (is_symlink v.fs p || not (is_file v.fs p)) _ _ (λ _. k)
          (λ _. (Triple-bind (stat_of_lem m p) λ info. record { run = λ u h. h }).run v k);
  }

  gather-Asked :
      {A : Type 0} (f : A → Action (List Check))
      → ((x : A) → Keeps (Asked w) (f x))
      → (xs : List A) → Keeps (Asked w) (gather xs f)
  unfolding gather
  gather-Asked f h [] = Keeps-pure []
  gather-Asked f h (x ∷ xs) =
      Triple-bind (h x) λ here. Triple-bind (gather-Asked f h xs) λ rest. Keeps-pure _

  check_files-Asked : (root : FilePath) → Keeps (Asked w) (check_files m host root)
  unfolding check_files check_program check_credential check_folder
  check_files-Asked root = Triple-bind (stat_of_lem m root) λ n.
      Triple-bind (record { run = λ v k. k })
        λ free.
          Triple-bind (record { run = λ v k. k })
            λ writable.
              Triple-bind
                (gather-Asked _
                  (λ c. Triple-bind (executable_check-Asked _) λ (good, detail). Keeps-pure _)
                  programs)
                λ binaries.
                  Triple-bind
                    (gather-Asked _
                      (λ c. Triple-bind (credential_check-Asked _) λ (good, detail). Keeps-pure _)
                      credentials)
                    λ tokens.
                      Triple-bind (gather-Asked _ (λ c. record { run = λ v k. k }) folders)
                        λ directories. Keeps-pure _

  check_root-Asked : (root : FilePath) → Keeps (Asked w) (check_root m host root)
  unfolding check_root
  check_root-Asked root = record {
    run = λ v k.
        (Triple-bind
            (Keeps-if (valid_root m host v.fs root) (check_files-Asked root) (Keeps-pure []))
            λ rest. Keeps-pure _).run
          v k;
  }

  check_service-Asked :
      (mode : Mode) (service : String) → Keeps (Asked w) (check_service m host mode service)
  unfolding check_service check_installed check_unused is_query asks_user string_eq
  check_service-Asked installed service =
      Triple-bind (command-Asked _ refl)
        λ (code, state). Triple-bind (command-Asked _ refl) λ (status, enabled). Keeps-pure _
  check_service-Asked install service =
      Triple-bind (command-Asked _ refl) λ (code, loaded). Keeps-pure _

  check_user-Asked : Keeps (Asked w) (check_user m host)
  unfolding check_user is_query asks_user string_eq
  check_user-Asked = Triple-bind (command-Asked _ refl) λ (ran, user).
      Triple-bind (command-Asked _ refl)
        λ (code, linger). Triple-bind (command-Asked _ refl) λ (asked, state). Keeps-pure _

  -- However the check ends, it has changed no file, and each command that it has started is `id`,
  -- `loginctl show-user` or a query of `systemctl --user`. Such queries change no file, and no other
  -- command was started before.
  pub main-Asked :
      (args : Args)
      → All (λ (command : List String). is_query command ≡ true) w.commands
      → Outcome (λ _. (Asked w)) (λ _. (Asked w)) (main m host args w)
  unfolding main all_checks
  main-Asked args before =
      (Triple-bind (Keeps-raise_if {I = (Asked w)} _ _) λ _.
          Triple-bind
            (Triple-bind (check_root-Asked _) λ files. Triple-bind check_user-Asked λ user.
              Triple-bind (gather-Asked _ (check_service-Asked args.mode) services)
                λ units. Keeps-pure _)
            λ checks. Keeps-pure _).run
        w (refl, before)
