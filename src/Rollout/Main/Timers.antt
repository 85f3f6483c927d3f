-- ===== src/Rollout/Main/Timers.antt =====
-- The timers are told to start at the end of a rollout, whatever came before.
use see_size.Base.{
  ℕ, ◌==◌, nat_eq, string_eq, list_eq, String, ◌≡◌, refl, Bool, true, false, List, [], ◌∷◌, ◌++◌,
  All, arith, contains, if◌then◌else◌,
}
use see_size.Fs.{FilePath, Bytes, Fs}
use see_size.Script.{
  Machine, World, Exc, process_error, is_exception, Action, Result, ok, err, pure, raise,
}
use see_size.Script.Files.{spawn, run_checked, write}
use see_size.Script.Rules.{
  Outcome, Triple, Keeps, Triple-bind, Triple-weaken, Triple-catch, Triple-and, Triple-given,
  Triple-pure, Keeps-pure, Keeps-raise, Keeps-raise_if, Keeps-if, Keeps-and, Keeps-gets, lift-Keeps,
}
use see_size.Script.Frame.{read-Keeps, write_lem}
use see_size.Rollout.{Site, timers, sha, state, user_service}
use see_size.Rollout.Main.{Desk, Ending, both, start_timers, final_hashes, final_states, conclude}

-- No command is interrupted, nor does one end the script.
abbrev pub Uninterrupted : Machine → Type 0
Uninterrupted m =
    (i : ℕ) (args : List String) (fs : Fs) (e : Exc)
    → (m.shell i args fs).ending ≡ err e
    → is_exception e ≡ true

-- The command has been started.
abbrev pub Logged : List String → World → Type 0
Logged args w = contains w.commands args ≡ true

abbrev pub start_command : String → List String
start_command t = "systemctl" ∷ "--user" ∷ "start" ∷ t ∷ []

-- Both timers have been told to start.
abbrev pub Started : World → Type 0
Started w = All (λ (t : String). Logged (start_command t) w) timers

module _ (m : Machine) (site : Site) where
  module _ (c : List String) where
    spawn-Logged : (args : List String) → Keeps (Logged c) (spawn m args)
    unfolding spawn
    spawn-Logged args = record { run = λ w k. ground (arith, k) }

    service-Logged : (args : List String) → Keeps (Logged c) (user_service m site args)
    unfolding user_service run_checked
    service-Logged args = Triple-bind (spawn-Logged _) λ r.
        Triple-bind (lift-Keeps r.ending)
          λ code. Keeps-if (code == 0) (Keeps-pure r.stdout) (Keeps-raise process_error)

    hashes-Logged : (cs : List String) → Keeps (Logged c) (final_hashes m site cs)
    unfolding final_hashes sha
    hashes-Logged [] = Keeps-pure _
    hashes-Logged (x ∷ xs) =
        Triple-bind (Triple-bind (read-Keeps m _) λ b. Keeps-pure _)
          λ hash. Triple-bind (hashes-Logged xs) λ rest. Keeps-pure _

    states-Logged : (us : List String) → Keeps (Logged c) (final_states m site us)
    unfolding final_states state
    states-Logged [] = Keeps-pure _
    states-Logged (u ∷ us) =
        Triple-bind (Triple-bind (service-Logged _) λ shown. Keeps-pure _)
          λ now. Triple-bind (states-Logged us) λ rest. Keeps-pure _

    write-Logged : (p : FilePath) (b : Bytes) → Keeps (Logged c) (write m p b 0o644)
    write-Logged p b = write_lem m p b 0o644 (λ w now k. k) (λ w k. k) (λ w part now k. k)

    handled :
        (t : String) (e : Exc)
        → Keeps {A = List String} (Logged c) (if is_exception e then pure (t ∷ []) else raise e)
    handled t e = Keeps-if (is_exception e) (Keeps-pure _) (Keeps-raise e)

    timers-Logged : (ts : List String) → Keeps (Logged c) (start_timers m site ts)
    unfolding start_timers
    timers-Logged [] = Keeps-pure _
    timers-Logged (t ∷ ts) =
        Triple-bind
          (Triple-catch (Triple-bind (service-Logged _) λ started. Keeps-pure _) (handled t))
          λ failed. Triple-bind (timers-Logged ts) λ rest. Keeps-pure _

  module _ (calm : Uninterrupted m) where
    -- A command is in the log however it ends, and what it raises is an `Exception`.
    service_lem :
        (args : List String)
        → Triple
            (λ w. Unit {0})
            (user_service m site args)
            (λ _. Logged ("systemctl" ∷ "--user" ∷ args))
            (λ e w. Logged ("systemctl" ∷ "--user" ∷ args) w × (is_exception e ≡ true))
    unfolding user_service run_checked spawn
    service_lem args =
        Triple-bind
          {Q = λ r w.
            Logged ("systemctl" ∷ "--user" ∷ args) w
            × ((e : Exc) → r.ending ≡ err e → is_exception e ≡ true)}
          (record { run = λ w k. (ground arith, λ e h. calm w.tick _ w.fs e h) })
          λ r.
            Triple-bind (record { run = λ w k. go r.ending w k.0 k.1 })
              λ code. Triple-weaken (λ w k. k) (λ _ w k. k) (λ e w k. k) (ended code r.stdout)
      where
        go :
            (r : Result ℕ) (w : World)
            → Logged ("systemctl" ∷ "--user" ∷ args) w
            → ((e : Exc) → r ≡ err e → is_exception e ≡ true)
            → Outcome
                (λ _. Logged ("systemctl" ∷ "--user" ∷ args))
                (λ e v. Logged ("systemctl" ∷ "--user" ∷ args) v × (is_exception e ≡ true))
                (r, w)
        go (ok n) w k h = k
        go (err e) w k h = (k, h e refl)

        ended :
            (code : ℕ) (out : String)
            → Triple
                (Logged ("systemctl" ∷ "--user" ∷ args))
                (if code == 0 then pure out else raise process_error)
                (λ _. Logged ("systemctl" ∷ "--user" ∷ args))
                (λ e w. Logged ("systemctl" ∷ "--user" ∷ args) w × (is_exception e ≡ true))
        ended code out = choose (code == 0)
          where
            choose :
                (c : Bool)
                → Triple
                    (Logged ("systemctl" ∷ "--user" ∷ args))
                    (if c then pure out else raise process_error)
                    (λ _. Logged ("systemctl" ∷ "--user" ∷ args))
                    (λ e w. Logged ("systemctl" ∷ "--user" ∷ args) w × (is_exception e ≡ true))
            choose true = Triple-pure out (λ w k. k)
            choose false = record { run = λ w k. (k, refl) }

    handled_lem :
        (t : String) (e : Exc)
        → Triple
            (λ w. Logged (start_command t) w × (is_exception e ≡ true))
            (if is_exception e then pure (t ∷ []) else raise e)
            (λ _. Logged (start_command t))
            (λ _ w. ⊥)
    handled_lem t e = Triple-given λ caught. rw caught (Triple-pure (t ∷ []) (λ w k. k))

    timers_start :
        (ts : List String)
        → Triple
            (λ w. Unit {0})
            (start_timers m site ts)
            (λ _ w. All (λ (t : String). Logged (start_command t) w) ts)
            (λ _ w. ⊥)
    unfolding start_timers
    timers_start [] = Triple-pure [] (λ w k. tt)
    timers_start (t ∷ ts) =
        Triple-bind
          (Triple-catch
            (Triple-bind (service_lem ("start" ∷ t ∷ [])) λ started. Triple-pure [] (λ w k. k))
            (handled_lem t))
          λ failed.
            Triple-bind
              (Triple-weaken (λ w k. (k, tt)) (λ _ w k. k) (λ _ w k. k.1)
                (Triple-and (timers-Logged (start_command t) ts) (timers_start ts)))
              λ rest. Triple-pure (failed ++ rest) (λ w k. (k.0, k.1))

    -- What follows keeps what the log has.
    kept : {A : Type 0} {a : Action A} → ((c : List String) → Keeps (Logged c) a) → Keeps Started a
    kept h =
        Triple-weaken (λ w k. (k.0, k.1.0)) (λ _ w k. (k.0, (k.1, tt))) (λ _ w k. (k.0, (k.1, tt)))
          (Keeps-and (h _) (h _))

    -- However the rollout has ended, and however the end of the script goes, both timers have been
    -- told to start. No command is interrupted.
    pub conclude-Started :
        (desk : Desk) (ending : Ending) (w : World)
        → Outcome (λ _. Started) (λ _. Started) (conclude m site desk ending w)
    unfolding conclude
    conclude-Started desk ending w =
        (Triple-bind
            (Triple-weaken (λ v k. k) (λ _ v k. k) (λ _ v k. absurd k) (timers_start timers))
            λ failed. Triple-bind (kept (λ c. hashes-Logged c both)) λ hashes.
              Triple-bind (kept (λ c. states-Logged c _)) λ states.
                Triple-bind (Keeps-gets _) λ in_bundle.
                  Triple-bind (record { run = λ v k. k })
                    λ text.
                      Triple-bind (kept (λ c. write-Logged c _ _))
                        λ _. Triple-bind (Keeps-raise_if _ _) λ _. lift-Keeps ending.result).run
          w tt
