-- ===== src/ChartHub/Main/Timers.antt =====
-- The timers at the end of `main`.
use see_size.Base.{
  ◌==◌, nat_eq, string_eq, list_eq, String, ◌≡◌, ◌≢◌, refl, List, [], ◌∷◌, arith, if◌then◌else◌,
}
use see_size.Fs.{Fs}
use see_size.Script.{Machine, World, process_error, ok}
use see_size.Script.Files.{spawn, run_checked}
use see_size.Script.Rules.{
  Outcome, Triple, Triple-bind, Triple-weaken, Triple-given, Triple-pure, Triple-raise, Triple-if,
  Triple-never, lift_lem,
}
use see_size.Rollout.Main.Timers.{start_command}
use see_size.ChartHub.{Web}
use see_size.ChartHub.Main.{user_service, service, start_again}

-- The commands for the timers that were active, the last first.
unfoldable pub told : List (String × String) → List (List String) → List (List String)
told [] before = before
told ((t, previous) ∷ rest) before =
    told rest (if previous == "active" then start_command t ∷ before else before)

module _ (m : Machine) (web : Web) where
  -- The commands so far.
  abbrev Ran : List (List String) → World → Type 0
  Ran cs w = w.commands ≡ cs

  start-Ran :
      (t : String) (cs : List (List String))
      → Triple
          (Ran cs)
          (service m web ("start" ∷ t ∷ []))
          (λ _. Ran (start_command t ∷ cs))
          (λ _. Ran (start_command t ∷ cs))
  unfolding service user_service run_checked spawn
  start-Ran t cs =
      Triple-bind
        (Triple-bind {Q = λ _. Ran (start_command t ∷ cs)} (record { run = λ w k. cc })
          λ r.
            Triple-bind (Triple-weaken (λ w k. k) (λ _ w k. k.0) (λ _ w k. k) (lift_lem r.ending))
              λ code.
                Triple-if (code == 0) (λ _. Triple-pure r.stdout (λ w k. k))
                  (λ _. Triple-raise process_error (λ w k. k)))
        λ shown. Triple-pure tt (λ w k. k)

  -- On a return, every timer that was active was told to start, in order.
  told_all :
      (ts : List (String × String)) (cs : List (List String))
      → Triple (Ran cs) (start_again m web ts) (λ _. Ran (told ts cs)) (λ _ w. Unit)
  unfolding start_again told
  told_all [] cs = Triple-pure tt (λ w k. k)
  told_all ((t, previous) ∷ rest) cs =
      Triple-bind {Q = λ _. Ran (if previous == "active" then start_command t ∷ cs else cs)}
        (Triple-if (previous == "active")
          (λ was. Triple-weaken (λ w k. k) (λ _ w k. rw was k) (λ _ w k. tt) (start-Ran t cs))
          (λ was. Triple-pure tt (λ w k. rw was k)))
        λ _. told_all rest _

  -- A start that does not succeed ends the loop.
  start_fails :
      (t : String) (w : World)
      → ((args : List String) (fs : Fs) → (m.shell w.tick args fs).ending ≢ ok 0)
      → Triple
          (λ v. v ≡ w)
          (service m web ("start" ∷ t ∷ []))
          (λ _ v. ⊥)
          (λ _. Ran (start_command t ∷ w.commands))
  unfolding service user_service run_checked spawn
  start_fails t w bad =
      Triple-bind
        (Triple-bind {Q = λ r v. Ran (start_command t ∷ w.commands) v × (r.ending ≢ ok 0)}
          (record { run = λ v same. rw same (refl, bad _ w.fs) })
          λ r. Triple-given λ not_fine.
            Triple-bind (Triple-weaken (λ v k. k) (λ _ v k. k) (λ _ v k. k) (lift_lem r.ending))
              λ code. Triple-given λ is.
                Triple-if (code == 0) (λ zero. absurd (not_fine (ground (arith, is))))
                  (λ _. Triple-raise process_error (λ v k. k)))
        λ shown. Triple-never

-- When the timers are started again and all starts return, exactly those that were active before
-- have been told to start, in their order.
pub start_again-told :
    (m : Machine) (web : Web) (ts : List (String × String)) (w : World)
    → Outcome (λ _ v. v.commands ≡ told ts w.commands) (λ _ v. Unit) (start_again m web ts w)
start_again-told m web ts w = (told_all m web ts w.commands).run w refl

-- Where the start of a timer that was active does not succeed, the timers after it are not told to
-- start: that start is the last command, and the call raises.
pub timer_skipped :
    (m : Machine) (web : Web) (t : String) (rest : List (String × String)) (w : World)
    → ((args : List String) (fs : Fs) → (m.shell w.tick args fs).ending ≢ ok 0)
    → Outcome
        (λ _ v. ⊥)
        (λ _ v. v.commands ≡ start_command t ∷ w.commands)
        (start_again m web ((t, "active") ∷ rest) w)
unfolding start_again
timer_skipped m web t rest w bad =
    (Triple-bind
        (Triple-if (◌==◌ {A = String} "active" "active") (λ _. start_fails m web t w bad)
          (λ no. absurd (ground (arith, no))))
        λ _. Triple-never).run
      w refl
