-- ===== src/ChartHub/Main/Others.antt =====
-- The files that `main` leaves alone.
use see_size.Base.{String, ◌≡◌, ◌≢◌, ◌⊎◌, inl, inr, list_eq, string_eq, List, ◌∷◌, nat_eq}
use see_size.Fs.{FilePath, ◌//◌, Bytes}
use see_size.Script.{Machine, World}
use see_size.Script.Files.{spawn}
use see_size.Script.Rules.{
  Outcome, Keeps, Triple-bind, Triple-each, Triple-catch, Triple-finally, Keeps-pure, Keeps-raise,
  Keeps-raise_if, Keeps-gets,
}
use see_size.Script.Frame.{Holds, stat_of_lem}
use see_size.Script.Frame.Keep.{copy_file-Holds, chmod-Holds, rename-Holds, write-Holds}
use see_size.Setup.Register.Safety.{Untouched, spawn-Untouched, run-Untouched}
use see_size.ChartHub.{Web}
use see_size.ChartHub.Main.{
  Edition, Before, live, stage, lock_path, put_in_place, bring_up, restore, activate, write_report,
  deploy, check_before, main, stop_timer,
}
use see_size.ChartHub.Main.Deploy.{take_lock-Holds}
use see_size.ChartHub.Main.Keep.{
  digest-Keeps, digests-Keeps, read_configs-Keeps, read_pid-Keeps, states-Keeps,
  assert_active-Keeps, service-Keeps, wait-Keeps, deadline_from-Keeps, observe-Keeps,
  start_again-Keeps,
}

-- The files that `main` itself writes: the live Hub, the lock, and three in the stage.
abbrev pub Written : Edition → FilePath → Type 0
Written e q =
    (q ≡ live)
    ⊎ (q ≡ lock_path)
    ⊎ (q ≡ stage e // "activate-hub")
    ⊎ (q ≡ stage e // "rollback-hub")
    ⊎ (q ≡ stage e // "deployment-result.json")

module _ (m : Machine) (web : Web) (e : Edition) (q : FilePath) {b : Bytes}
    (calm : Untouched m q) where
  systemctl : (args : List String) → Keeps (Holds q b) (spawn m ("systemctl" ∷ args))
  systemctl args = spawn-Untouched m q calm _

  put :
      (source replacement : FilePath)
      → q ≢ replacement
      → q ≢ live
      → Keeps (Holds q b) (put_in_place m web source replacement)
  unfolding put_in_place
  put source replacement other apart =
      Triple-bind (copy_file-Holds m q source replacement other) λ _.
        Triple-bind (chmod-Holds m q replacement 0o700) λ _.
          Triple-bind (rename-Holds m q replacement live other apart)
            λ _. service-Keeps m web (Holds q b) (λ w k. k) systemctl _

  module _ (other : Written e q → ⊥) where
    activate-Holds : (before : Before) → Keeps (Holds q b) (activate m web e before)
    unfolding activate bring_up restore
    activate-Holds before =
        Triple-bind (service-Keeps m web (Holds q b) (λ w k. k) systemctl _) λ _.
          Triple-catch
            (Triple-bind (put _ _ (λ h. other (inr (inr (inl h)))) (λ h. other (inl h)))
              λ _. observe-Keeps m web (Holds q b) (λ w k. k) systemctl e before)
            (λ raised.
              Triple-bind
                (Triple-bind (service-Keeps m web (Holds q b) (λ w k. k) systemctl _)
                  λ _. put _ _ (λ h. other (inr (inr (inr (inl h))))) (λ h. other (inl h)))
                λ _. Keeps-raise raised)

    deploy-Holds :
        (before : Before) (started : String) → Keeps (Holds q b) (deploy m web e before started)
    unfolding deploy stop_timer write_report
    deploy-Holds before started =
        Triple-bind
          (Triple-each (λ _. Holds q b)
            (λ t _. service-Keeps m web (Holds q b) (λ w k. k) systemctl _) _)
          λ _. Triple-bind (deadline_from-Keeps m web (Holds q b) (λ w k. k)) λ deadline.
            Triple-bind
              (Triple-each (λ _. Holds q b)
                (λ u _. wait-Keeps m web (Holds q b) (λ w k. k) systemctl 122 deadline u) _)
              λ _. Triple-bind (run-Untouched m q calm _) λ prepared.
                Triple-bind (take_lock-Holds m web q (λ h. other (inr (inl h)))) λ _.
                  Triple-bind (activate-Holds before) λ reports.
                    Triple-bind (record { run = λ w k. k })
                      λ finished. write-Holds m q _ _ 0o644 (λ h. other (inr (inr (inr (inr h)))))

    check_before-Holds : Keeps (Holds q b) (check_before m web e)
    unfolding check_before
    check_before-Holds = Triple-bind (Keeps-gets _) λ _. Triple-bind (Keeps-raise_if _ _) λ _.
        Triple-bind (stat_of_lem m _) λ n. Triple-bind (Keeps-raise_if _ _) λ _.
          Triple-bind (Keeps-gets _) λ _. Triple-bind (Keeps-raise_if _ _) λ _.
            Triple-bind (Keeps-gets _) λ _. Triple-bind (Keeps-raise_if _ _) λ _.
              Triple-bind (digest-Keeps m web (Holds q b) (λ w k. k) _) λ hash.
                Triple-bind (Keeps-raise_if _ _) λ _.
                  Triple-bind (digests-Keeps m web (Holds q b) (λ w k. k) _) λ unchanged.
                    Triple-bind (read_configs-Keeps m web (Holds q b) (λ w k. k) systemctl) λ c.
                      Triple-bind (read_pid-Keeps m web (Holds q b) (λ w k. k) systemctl) λ pid.
                        Triple-bind (states-Keeps m web (Holds q b) (λ w k. k) systemctl _) λ ts.
                          Triple-bind
                            (Triple-each (λ _. Holds q b)
                              (λ u _. assert_active-Keeps m web (Holds q b) (λ w k. k) systemctl u)
                              _)
                            λ _. Keeps-pure _

    main-Holds : Keeps (Holds q b) (main m web e)
    unfolding main
    main-Holds = Triple-bind check_before-Holds λ before.
        Triple-bind (record { run = λ w k. k })
          λ started.
            Triple-finally (deploy-Holds before started)
              (λ _. start_again-Keeps m web (Holds q b) (λ w k. k) systemctl before.original)
              (λ _. start_again-Keeps m web (Holds q b) (λ w k. k) systemctl before.original)

-- However the activation ends, a regular file keeps its bytes where it is not one of the five that
-- the script itself writes, which are the live Hub, the lock, and three files in its stage, and where
-- none of the commands that it starts writes to it: the preparation of the upgrade is one of them, and
-- the start of the Hub another.
pub main_keeps_others :
    (m : Machine) (web : Web) (e : Edition) (q : FilePath) (b : Bytes) (w : World)
    → Untouched m q
    → (Written e q → ⊥)
    → Holds q b w
    → Outcome (λ _. Holds q b) (λ _. Holds q b) (main m web e w)
main_keeps_others m web e q b w calm other k = (main-Holds m web e q calm other).run w k
