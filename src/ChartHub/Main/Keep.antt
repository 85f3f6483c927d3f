-- ===== src/ChartHub/Main/Keep.antt =====
-- What the parts of `main` leave alone that only ask.
use see_size.Base.{ℕ, zero, suc, String, List, [], ◌∷◌, ◌==◌, nat_eq, string_eq}
use see_size.Fs.{FilePath}
use see_size.Script.{Machine, World, process_error, is_exception, Action}
use see_size.Script.Files.{ticked, spawn, run_checked}
use see_size.Script.Rules.{
  Keeps, Triple-bind, Triple-each, Triple-catch, Keeps-pure, Keeps-raise, Keeps-raise_if, Keeps-if,
  lift-Keeps,
}
use see_size.Script.Frame.{change_lem, read-Keeps}
use see_size.ChartHub.{Web}
use see_size.ChartHub.Keep.{request-Keeps, probe-Keeps, disk_probe-Keeps}
use see_size.ChartHub.Main.{
  Edition, charts, disks, Before, digest, user_service, service, state, states, digests,
  read_configs, read_pid, assert_active, sleep, busy_round, wait, deadline_from, one_try, try_again,
  await_health, assert_unchanged, probe_of, observe, busy, start_again,
}

module _ (m : Machine) (web : Web) (I : World → Type 0)
    (steady : (w : World) → I w → I (ticked m w w.fs)) where
  probe_of-Keeps : (e : Edition) → Keeps I (probe_of m web e)
  unfolding probe_of
  probe_of-Keeps charts = probe-Keeps m web I steady
  probe_of-Keeps disks = disk_probe-Keeps m web I steady

  pub sleep-Keeps : Keeps I (sleep m web)
  unfolding sleep
  sleep-Keeps = change_lem m (λ fs. fs) steady steady

  one_try-Keeps : Keeps I (one_try m web)
  unfolding one_try
  one_try-Keeps = Triple-bind (request-Keeps m web I steady _ _ _) λ r. Keeps-raise_if _ _

  await_health-Keeps : (n : ℕ) → Keeps I (await_health m web n)
  unfolding await_health try_again
  await_health-Keeps zero = one_try-Keeps
  await_health-Keeps (suc n) = Triple-catch one_try-Keeps (λ e.
      Keeps-if (is_exception e) (Triple-bind sleep-Keeps λ _. await_health-Keeps n) (Keeps-raise e))

  pub digest-Keeps : (p : FilePath) → Keeps I (digest m web p)
  unfolding digest
  digest-Keeps p = Triple-bind (read-Keeps m p) λ body. Keeps-pure _

  pub digests-Keeps : (ps : List FilePath) → Keeps I (digests m web ps)
  unfolding digests
  digests-Keeps [] = Keeps-pure _
  digests-Keeps (p ∷ ps) =
      Triple-bind (digest-Keeps p) λ hash. Triple-bind (digests-Keeps ps) λ rest. Keeps-pure _

  assert_unchanged-Keeps : (q : FilePath × String) → Keeps I (assert_unchanged m web q)
  unfolding assert_unchanged
  assert_unchanged-Keeps (p, h) = Triple-bind (digest-Keeps p) λ hash. Keeps-raise_if _ _

  pub deadline_from-Keeps : Keeps I (deadline_from m web)
  unfolding deadline_from
  deadline_from-Keeps = record { run = λ w k. k }

  -- Commands of `systemctl` that keep it too.
  module _ (calm : (args : List String) → Keeps I (spawn m ("systemctl" ∷ args))) where
    pub user_service-Keeps : (args : List String) → Keeps I (user_service m web args)
    unfolding user_service run_checked
    user_service-Keeps args = Triple-bind (calm _) λ r.
        Triple-bind (lift-Keeps r.ending)
          λ code. Keeps-if (code == 0) (Keeps-pure r.stdout) (Keeps-raise process_error)

    pub service-Keeps : (args : List String) → Keeps I (service m web args)
    unfolding service
    service-Keeps args = Triple-bind (user_service-Keeps args) λ shown. Keeps-pure tt

    pub state-Keeps : (unit : String) → Keeps I (state m web unit)
    unfolding state
    state-Keeps unit = Triple-bind (user_service-Keeps _) λ shown. Keeps-pure _

    pub states-Keeps : (us : List String) → Keeps I (states m web us)
    unfolding states
    states-Keeps [] = Keeps-pure _
    states-Keeps (u ∷ us) =
        Triple-bind (state-Keeps u) λ now. Triple-bind (states-Keeps us) λ rest. Keeps-pure _

    pub read_configs-Keeps : Keeps I (read_configs m web)
    unfolding read_configs
    read_configs-Keeps = user_service-Keeps _

    pub read_pid-Keeps : Keeps I (read_pid m web)
    unfolding read_pid
    read_pid-Keeps = Triple-bind (user_service-Keeps _) λ shown. Keeps-pure _

    pub assert_active-Keeps : (unit : String) → Keeps I (assert_active m web unit)
    unfolding assert_active
    assert_active-Keeps unit = Triple-bind (state-Keeps unit) λ now. Keeps-raise_if _ _

    busy_round-Keeps :
        (deadline : ℕ) {next : Action (Unit {0})}
        → Keeps I next
        → Keeps I (busy_round m web deadline next)
    unfolding busy_round
    busy_round-Keeps deadline h =
        Triple-bind (record { run = λ w k. k })
          λ late. Triple-bind (Keeps-raise_if _ _) λ _. Triple-bind sleep-Keeps λ _. h

    pub wait-Keeps : (fuel deadline : ℕ) (unit : String) → Keeps I (wait m web fuel deadline unit)
    unfolding wait
    wait-Keeps zero deadline unit = Keeps-raise _
    wait-Keeps (suc fuel) deadline unit = Triple-bind (state-Keeps unit) λ now.
        Keeps-if (busy now) (busy_round-Keeps deadline (wait-Keeps fuel deadline unit))
          (Keeps-pure tt)

    pub start_again-Keeps : (ts : List (String × String)) → Keeps I (start_again m web ts)
    unfolding start_again
    start_again-Keeps [] = Keeps-pure tt
    start_again-Keeps ((t, previous) ∷ rest) =
        Triple-bind (Keeps-if (previous == "active") (service-Keeps _) (Keeps-pure tt))
          λ _. start_again-Keeps rest

    -- Watching the new Hub changes nothing.
    pub observe-Keeps : (e : Edition) (b : Before) → Keeps I (observe m web e b)
    unfolding observe
    observe-Keeps e b = Triple-bind (await_health-Keeps 19) λ _.
        Triple-bind (probe_of-Keeps e) λ before. Triple-bind sleep-Keeps λ _.
          Triple-bind (probe_of-Keeps e) λ after. Triple-bind (lift-Keeps _) λ advanced.
            Triple-bind (Keeps-raise_if _ _) λ _.
              Triple-bind (Triple-each (λ _. I) (λ p _. assert_unchanged-Keeps p) _) λ _.
                Triple-bind read_configs-Keeps λ configs. Triple-bind (Keeps-raise_if _ _) λ _.
                  Triple-bind read_pid-Keeps λ pid. Triple-bind (Keeps-raise_if _ _) λ _.
                    Triple-bind (digest-Keeps _)
                      λ hash. Triple-bind (Keeps-raise_if _ _) λ _. Keeps-pure _
