-- ===== src/Setup/Register/Safety.antt =====
-- `register` as a whole: what it writes, and what it never overwrites.
use see_size.Base.{
  ℕ, String, string_eq, list_eq, nat_eq, ◌≡◌, refl, ◌≢◌, ap, ◌&&◌, ◌||◌, List, arith, is_some,
  length, ◌≤◌, ◌==◌, ◌∷◌,
}
use see_size.Base.Text.{codes}
use see_size.Base.Dict.{lookup}
use see_size.Fs.{FilePath, name, ◌//◌, Bytes, Fs, exists, is_symlink}
use see_size.Script.{Machine, World, Exc, value_error, process_error, Action, ok, each}
use see_size.Script.Checked.{lift}
use see_size.Script.Rules.{
  Triple-never, quiet, Outcome, Triple, Keeps, Triple-bind, Triple-weaken, Triple-each,
  Triple-given, Triple-raise_if, Triple-pure, Triple-anything, Outcome-if, Keeps-pure, Keeps-if,
  Keeps-raise, lift-Keeps, lift_lem,
}
use see_size.Script.Frame.{Holds, read-Keeps, read_known, write_done}
use see_size.Script.Frame.Keep.{write-Holds, run_checked-Keeps}
use see_size.Script.Files.{read, spawn, run_checked}
use see_size.Setup.{root, unit, components, account, data_folder}
use see_size.Setup.Cache.{refuse, create}
use see_size.Fs.Laws.{content-exists, content-size}
use see_size.Json.{get_field}
use see_size.Script.Checked.{or_refuse}
use see_size.Script.Success.{bind-ok, ok-injective}
use see_size.Setup.Checks.Hub.{hub_url}
use see_size.Setup.Checks.Version.{device_id}
use see_size.Setup.Checks.Hub.Plain.{hub_url-plain, hub_url-nonempty, device_id-IsPlain}
use see_size.Setup.Checks.Manifest.{Connection, saved_connection, saved_release, as_object, as_text}
use see_size.Setup.Update.{token, agent_args, check_unit, check_program}
use see_size.Setup.Update.Inspect.{
  refuse-Keeps, preflight-Keeps, refuse_unowned-Keeps, check_program-Keeps, uid_of-Keeps,
}
use see_size.Setup.Register.{
  empty_file, inspect, obtain_token, drop_empty, enroll_if_missing, register, unit_text,
}
use see_size.Setup.Register.Unit.{IsWord, SplitsWords, check_unit-unit_text}

-- Commands that leave a file alone.
abbrev pub Untouched : Machine → FilePath → Type 0
Untouched m p =
    (i : ℕ) (args : List String) (fs : Fs) → lookup p (m.shell i args fs).fs ≡ lookup p fs

-- The commands of `systemctl` leave a file alone.
abbrev pub Spared : Machine → FilePath → Type 0
Spared m p =
    (i : ℕ) (args : List String) (fs : Fs)
    → lookup p (m.shell i ("systemctl" ∷ args) fs).fs ≡ lookup p fs

module _ (m : Machine) where
  inspect-Keeps : {I : World → Type 0} → Keeps I (inspect m)
  unfolding inspect
  inspect-Keeps {I} = Triple-bind (preflight-Keeps m) λ _.
      Triple-bind (Triple-each (λ _. I) (λ p _. refuse_unowned-Keeps m _ _ _ p) _) λ _.
        Triple-bind (read-Keeps m _) λ saved. Triple-bind (lift-Keeps _) λ c.
          Triple-bind (read-Keeps m _) λ raw. Triple-bind (lift-Keeps _) λ release.
            Triple-bind (Triple-each (λ _. I) (λ n _. check_program-Keeps m root release n) _)
              λ _. Keeps-pure c

  -- The connection is the saved one.
  inspect_known :
      (saved : Bytes)
      → Triple
          (Holds (root // "connection.json") saved)
          (inspect m)
          (λ c w. Unit × (saved_connection m saved ≡ ok c))
          (λ _ w. Unit)
  unfolding inspect
  inspect_known saved =
      let conn = root // "connection.json" in
      Triple-bind (quiet (preflight-Keeps m)) λ _.
        Triple-bind
          (quiet (Triple-each (λ _. Holds conn saved) (λ p _. refuse_unowned-Keeps m _ _ _ p) _))
          λ _. Triple-bind (read_known m conn) λ raw. Triple-given {F = raw ≡ saved} λ same.
            Triple-bind (quiet (lift_lem (saved_connection m raw))) λ c. Triple-given λ parsed.
              Triple-bind (Triple-anything (read m (root // "agent-release.json"))) λ text.
                Triple-bind (Triple-anything (lift (saved_release m text))) λ release.
                  Triple-bind (Triple-anything (each components (check_program m root release)))
                    λ _. Triple-pure c (λ w k. (tt, rw (← same) parsed))

  module _ (p : FilePath) {b : Bytes} (calm : Untouched m p) where
    pub spawn-Untouched : (args : List String) → Keeps (Holds p b) (spawn m args)
    unfolding spawn
    spawn-Untouched args = record { run = λ w k. ground (arith, calm w.tick args w.fs) }

    pub run-Untouched : (args : List String) → Keeps (Holds p b) (run_checked m args)
    run-Untouched args = run_checked-Keeps m (Holds p b) spawn-Untouched args

  pub spawn-Spared :
      (p : FilePath) {b : Bytes}
      → Spared m p
      → (args : List String) → Keeps (Holds p b) (spawn m ("systemctl" ∷ args))
  unfolding spawn
  spawn-Spared p calm args = record { run = λ w k. ground (arith, calm w.tick args w.fs) }

  run-Spared :
      (p : FilePath) {b : Bytes}
      → Spared m p
      → (args : List String) → Keeps (Holds p b) (run_checked m ("systemctl" ∷ args))
  unfolding run_checked
  run-Spared p calm args = Triple-bind (spawn-Spared p calm args) λ r.
      Triple-bind (lift-Keeps r.ending)
        λ code. Keeps-if (code == 0) (Keeps-pure r.stdout) (Keeps-raise process_error)

  -- A new file has the bytes that it was made with.
  create_done :
      (p : FilePath) (b : Bytes) (mode : ℕ)
      → Triple (λ w. Unit) (create m p b mode) (λ _. Holds p b) (λ _ w. Unit)
  unfolding create
  create_done p b mode = record {
    run = λ w k.
        Outcome-if _ _ (is_some (lookup p w.fs)) _ _ (λ _. tt)
          (λ _. (write_done m p b mode).run w tt);
  }

  register-Triple :
      (saved : Bytes)
      → Untouched m unit
      → Triple
          (Holds (root // "connection.json") saved)
          (register m)
          (λ _ w.
            (c : Connection) × (saved_connection m saved ≡ ok c) × Holds unit (unit_text m c) w)
          (λ _ w. Unit)
  unfolding register
  register-Triple saved calm = Triple-bind (inspect_known saved) λ c. Triple-given λ parsed.
      Triple-bind (Triple-anything (obtain_token m c)) λ _.
        Triple-bind (create_done unit (unit_text m c) 0o644) λ _.
          Triple-bind (quiet (run-Untouched unit calm _)) λ _.
            Triple-bind (quiet (run-Untouched unit calm _))
              λ _. Triple-pure tt (λ w k. (c, parsed, k))

  -- What `device_id` and `hub_url` accept are words.
  connection-IsWord :
      (saved : Bytes) (c : Connection)
      → saved_connection m saved ≡ ok c
      → IsWord c.hub × IsWord c.identity
  unfolding saved_connection
  connection-IsWord saved c h =
      let (j, loaded, h1) =
        bind-ok (or_refuse (m.loads saved) (value_error "JSONDecodeError")) _ h in
      let (fs, is_object, h2) = bind-ok (as_object j) _ h1 in
      let (url, has_hub, h3) = bind-ok (as_text (get_field "hub" fs)) _ h2 in
      let (hub, good_hub, h4) = bind-ok (hub_url m url) _ h3 in
      let (name, has_id, h5) = bind-ok (as_text (get_field "id" fs)) _ h4 in
      let (identity, good_id, h6) = bind-ok (device_id name) _ h5 in
      let made = ok-injective h6 in
      rw (← made) (hub_url-IsWord url hub good_hub, device_id-IsWord name identity good_id)
    where
      hub_url-IsWord : (url hub : String) → hub_url m url ≡ ok hub → IsWord hub
      hub_url-IsWord url hub k = (hub_url-nonempty m url hub k, (hub_url-plain m url hub k).1)

      device_id-IsWord : (name identity : String) → device_id name ≡ ok identity → IsWord identity
      device_id-IsWord name identity k = device_id-IsPlain name identity k

  -- From what the connection's file holds, a registration that returns has written a unit for the
  -- Hub and the device of that file, and `update` will accept that unit. `shlex.split` takes plain
  -- words apart at the spaces, and the commands do not write to the unit.
  pub register_lem :
      (saved : Bytes) (w : World)
      → SplitsWords m
      → Untouched m unit
      → Holds (root // "connection.json") saved w
      → Outcome
          (λ _ v.
            (c : Connection) × (saved_connection m saved ≡ ok c)
            × Holds unit (unit_text m c) v
            × (check_unit m (agent_args m c) (unit_text m c) ≡ ok tt))
          (λ _ v. Unit)
          (register m w)
  register_lem saved w splits calm k = (accepted (register-Triple saved calm)).run w k
    where
      accepted :
          {P : World → Type 0} {a : Action (Unit {0})}
          → Triple P a
              (λ _ v.
                (c : Connection) × (saved_connection m saved ≡ ok c) × Holds unit (unit_text m c) v)
              (λ _ v. Unit)
          → Triple P a
              (λ _ v.
                (c : Connection) × (saved_connection m saved ≡ ok c)
                × Holds unit (unit_text m c) v
                × (check_unit m (agent_args m c) (unit_text m c) ≡ ok tt))
              (λ _ v. Unit)
      accepted =
          Triple-weaken (λ v h. h)
            (λ _ v h.
              let (c, parsed, there) = h in
              let words = connection-IsWord saved c parsed in
              (c, parsed, there, check_unit-unit_text m c splits words.0 words.1))
            (λ _ v h. h)

  -- What the run has done before it comes to the test of the unit: nothing.
  abbrev Unchanged : World → World → Type 0
  Unchanged w v = (v.fs ≡ w.fs) × (v.commands ≡ w.commands)

  refuse_configured :
      (w : World) (b : Bytes) (e : Exc)
      → Holds unit b w
      → Triple
          (Unchanged w)
          (refuse (λ fs. exists fs unit || is_symlink fs unit) e)
          (λ _ v. ⊥)
          (λ _. Unchanged w)
  refuse_configured w b e there = record {
    run = λ v k.
        (Triple-raise_if {P = Unchanged w} (exists v.fs unit || is_symlink v.fs unit) e (λ u h _. h)
            (λ u h no.
              let here : Holds unit b v = rw k.0 there in
              let found = content-exists unit v.fs here in ground arith)).run
          v k;
  }

  -- A registration where a unit stands already fails, with all files as they were and no command
  -- run.
  pub register_refused :
      (b : Bytes) (w : World)
      → Holds unit b w
      → Outcome (λ _ v. ⊥) (λ _ v. (v.fs ≡ w.fs) × (v.commands ≡ w.commands)) (register m w)
  unfolding register obtain_token
  register_refused b w there =
      (Triple-bind (inspect-Keeps {I = Unchanged w}) λ c.
          Triple-bind
            (Triple-bind (uid_of-Keeps m account) λ uid.
              Triple-bind (refuse_unowned-Keeps m uid 0o077 _ data_folder)
                λ _. Triple-bind (refuse_configured w b _ there) λ _. Triple-never)
            λ _. Triple-never).run
        w (refl, refl)

  -- An existing credential is not empty: it is neither removed nor replaced.
  drop_empty-Holds : (b : Bytes) → 1 ≤ length b → Keeps (Holds token b) (drop_empty m)
  unfolding drop_empty
  drop_empty-Holds b long = record {
    run = λ w k.
        Outcome-if _ _ (exists w.fs token && empty_file m w.fs token) _ _
          (λ e. let full = content-size token w.fs k long in ground arith) (λ _. k);
  }

  enroll_if_missing-Holds :
      (b : Bytes) (c : Connection) → Keeps (Holds token b) (enroll_if_missing m c)
  unfolding enroll_if_missing
  enroll_if_missing-Holds b c = record {
    run = λ w k.
        Outcome-if _ _ (exists w.fs token) _ _ (λ _. k)
          (λ e. let found = content-exists token w.fs k in ground arith);
  }

  create-Holds : (b body : Bytes) (mode : ℕ) → Keeps (Holds token b) (create m unit body mode)
  unfolding create
  create-Holds b body mode = record {
    run = λ w k.
        Outcome-if _ _ (is_some (lookup unit w.fs)) _ _ (λ _. k)
          (λ _. (write-Holds m token unit body mode token_ne_unit).run w k);
  }
    where
      token_ne_unit : token ≢ unit
      token_ne_unit e = absurd (omega (arith, ap (λ (p : FilePath). length (codes (name p))) e))

  -- A credential that is there and not empty stays as it is, however the registration ends, where
  -- `systemctl` does not write to it. The enrolment program may write to any file.
  pub register-Holds :
      (b : Bytes) (w : World)
      → 1 ≤ length b
      → Spared m token
      → Holds token b w
      → Outcome (λ _. Holds token b) (λ _. Holds token b) (register m w)
  unfolding register obtain_token
  register-Holds b w long calm k =
      (Triple-bind inspect-Keeps λ c.
          Triple-bind
            (Triple-bind (uid_of-Keeps m account) λ uid.
              Triple-bind (refuse_unowned-Keeps m uid 0o077 _ data_folder) λ _.
                Triple-bind (refuse-Keeps m _ _) λ _. Triple-bind (refuse-Keeps m _ _) λ _.
                  Triple-bind (drop_empty-Holds b long)
                    λ _. Triple-bind (enroll_if_missing-Holds b c) λ _. refuse-Keeps m _ _)
            λ _. Triple-bind (create-Holds b _ 0o644) λ _.
              Triple-bind (run-Spared token calm _)
                λ _. Triple-bind (run-Spared token calm _) λ _. Keeps-pure tt).run
        w k
