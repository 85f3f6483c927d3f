-- ===== src/ChartHub/Main/Safety.antt =====
-- What `main` leaves in the place of the live Hub.
use see_size.Base.{String, ◌≡◌, ◌⊎◌, inl, inr, list_eq, string_eq, List, [], ◌∷◌, ◌==◌}
use see_size.Fs.{Bytes}
use see_size.Script.{Machine, World}
use see_size.Script.Rules.{
  Outcome, Triple, Keeps, Triple-bind, Triple-finally, Triple-weaken, Triple-given, Triple-pure,
  Keeps-or, Triple-if, Triple-never,
}
use see_size.Script.Frame.{Holds}
use see_size.Script.Frame.Keep.{write-Holds}
use see_size.Script.Frame.Sure.{Fine, Succeeds, write_sure_Holds}
use see_size.Rollout.Safety.{Verified}
use see_size.ChartHub.{Web, Report}
use see_size.ChartHub.Main.{
  Edition, live, candidate, expected, write_report, start_again, restore, main, service,
}
use see_size.ChartHub.Main.Keep.{start_again-Keeps}
use see_size.Setup.Register.Safety.{Spared, spawn-Spared}
use see_size.ChartHub.Main.Restore.{
  backup, Either, live_ne_stage, restore-Triple, restore_sure, service_sure,
}
use see_size.ChartHub.Main.Deploy.{Backs, Both, check_before-Triple, deploy-Triple}

module _ (m : Machine) (web : Web) (e : Edition) (new old : Bytes) (calm : Spared m live)
    (still : Spared m (candidate e)) (safe : Spared m (backup e)) (backs : Backs m e) where
  again-Holds :
      {c : Bytes} (ts : List (String × String)) → Keeps (Holds live c) (start_again m web ts)
  again-Holds ts = start_again-Keeps m web (Holds live _) (λ w k. k) (spawn-Spared m live calm) ts

  report-Holds :
      {c : Bytes} (started : String) (reports : Report × Report)
      → Keeps (Holds live c) (write_report m web e started reports)
  unfolding write_report
  report-Holds started reports =
      Triple-bind (record { run = λ w k. k })
        λ finished. write-Holds m live _ _ 0o644 (live_ne_stage e _)

  -- What is left where the way back or the end fails.
  module _ (Bad : World → Type 0)
      (back : Triple (Either e new old) (restore m web e) (λ _. Holds live old) (λ _. Bad))
      (reported : (started : String) (reports : Report × Report)
        → Triple
            (Holds live new)
            (write_report m web e started reports)
            (λ _. Holds live new)
            (λ _. Bad))
      (resumed : (ts : List (String × String))
        → Triple (Holds live new) (start_again m web ts) (λ _. Holds live new) (λ _. Bad))
      (left : (ts : List (String × String)) → Keeps Bad (start_again m web ts)) where
    main-Triple :
        Triple
          (Both m web e new old)
          (main m web e)
          (λ _. Verified m live (expected e))
          (λ _ w. Holds live old w ⊎ (Bad w × (m.sha256 new ≡ expected e)))
    unfolding main
    main-Triple =
        Triple-bind
          (Triple-weaken (λ w k. k) (λ _ w k. k) (λ _ w k. inl k.1)
            (check_before-Triple m web e new old calm still))
          λ before.
            Triple-bind (record { run = λ w k. k })
              λ started. Triple-given λ trusted.
                Triple-weaken (λ w k. k) (λ _ w k. (new, (k, trusted)))
                  (λ _ w k. elim k [ inl x ↦ inl x | inr x ↦ inr (x, trusted) ])
                  (Triple-finally
                    (deploy-Triple m web e new old calm still safe backs before Bad back reported
                      started)
                    (λ _.
                      Triple-weaken (λ w k. k) (λ _ w k. k) (λ _ w k. inr k)
                        (resumed before.original))
                    (λ _. Keeps-or (again-Holds before.original) (left before.original)))

  whole :
      Triple
        (Both m web e new old)
        (main m web e)
        (λ _. Verified m live (expected e))
        (λ _ w. Holds live old w ⊎ Verified m live (expected e) w)
  whole =
      Triple-weaken (λ w k. k) (λ _ w k. k)
        (λ _ w k. elim k [
          | inl x ↦ inl x
          | inr x ↦ elim x.0 [ inl y ↦ inl y | inr y ↦ inr (new, (y, x.1)) ]
        ])
        (main-Triple (λ w. Holds live old w ⊎ Holds live new w)
          (Triple-weaken (λ w k. k) (λ _ w k. k) (λ _ w k. k.0)
            (restore-Triple m web e calm still safe))
          (λ started reports.
            Triple-weaken (λ w k. k) (λ _ w k. k) (λ _ w k. inr k) (report-Holds started reports))
          (λ ts. Triple-weaken (λ w k. k) (λ _ w k. k) (λ _ w k. inr k) (again-Holds ts))
          (λ ts. Keeps-or (again-Holds ts) (again-Holds ts)))

  service_works :
      {c : Bytes}
      → Succeeds m "systemctl"
      → (args : List String)
      → Triple (Holds live c) (service m web args) (λ _. Holds live c) (λ _ w. ⊥)
  service_works good args = service_sure m web calm good args

  again_sure :
      Succeeds m "systemctl"
      → {c : Bytes} (ts : List (String × String))
      → Triple (Holds live c) (start_again m web ts) (λ _. Holds live c) (λ _ w. ⊥)
  unfolding start_again
  again_sure good [] = Triple-pure tt (λ w k. k)
  again_sure good ((t, previous) ∷ rest) =
      Triple-bind
        (Triple-if (previous == "active") (λ _. service_works good _)
          (λ _. Triple-pure tt (λ w k. k)))
        λ _. again_sure good rest

  report_sure :
      Fine m
      → (started : String) (reports : Report × Report)
      → Triple
          (Holds live new)
          (write_report m web e started reports)
          (λ _. Holds live new)
          (λ _ w. ⊥)
  unfolding write_report
  report_sure fine started reports =
      Triple-bind (record { run = λ w k. k })
        λ finished. write_sure_Holds m fine live _ _ 0o644 (live_ne_stage e _)

  main_sure :
      Fine m
      → Succeeds m "systemctl"
      → Triple
          (Both m web e new old)
          (main m web e)
          (λ _. Verified m live (expected e))
          (λ _. Holds live old)
  main_sure fine good =
      Triple-weaken (λ w k. k) (λ _ w k. k) (λ _ w k. elim k [ inl x ↦ x | inr x ↦ absurd x.0 ])
        (main-Triple (λ w. ⊥) (restore_sure m web e calm still safe fine good) (report_sure fine)
          (again_sure good) (λ ts. Triple-never))

-- Whatever call of the activation fails or is interrupted, the live Hub is afterwards the old one or
-- one with the expected hash, whole in both cases; `main` returns only with the expected one. The
-- candidate and the live Hub are regular files before, no `systemctl` command writes to them or to
-- the bundle's Hub, and the preparation copies the live Hub into the bundle.
pub main_whole :
    (m : Machine) (web : Web) (e : Edition) (new old : Bytes) (w : World)
    → Spared m live
    → Spared m (candidate e)
    → Spared m (backup e)
    → Backs m e
    → Holds (candidate e) new w
    → Holds live old w
    → Outcome
        (λ _. Verified m live (expected e))
        (λ _ v. Holds live old v ⊎ Verified m live (expected e) v)
        (main m web e w)
main_whole m web e new old w calm still safe backs h k =
    (whole m web e new old calm still safe backs).run w (h, k)

-- Where no change of a file and no command of `systemctl` fails, an activation that raises has put
-- the old Hub back, whatever the new one answers; one that returns has the expected Hub. The
-- conditions on the files and commands are those of `main_whole`; the preparation may fail.
pub main_restores :
    (m : Machine) (web : Web) (e : Edition) (new old : Bytes) (w : World)
    → Fine m
    → Succeeds m "systemctl"
    → Spared m live
    → Spared m (candidate e)
    → Spared m (backup e)
    → Backs m e
    → Holds (candidate e) new w
    → Holds live old w
    → Outcome (λ _. Verified m live (expected e)) (λ _. Holds live old) (main m web e w)
main_restores m web e new old w fine good calm still safe backs h k =
    (main_sure m web e new old calm still safe backs fine good).run w (h, k)
