-- ===== src/Rollout/Keep.antt =====
-- What the parts of a rollout leave alone.
use see_size.Base.{
  ℕ, zero, suc, ◌==◌, nat_eq, string_eq, list_eq, String, ◌≢◌, none, some, List, [], ◌∷◌,
}
use see_size.Fs.{FilePath, Bytes}
use see_size.Json.{Json}
use see_size.Script.{
  World, Machine, Exc, value_error, runtime_error, os_error, process_error, crash, system_exit,
  interrupt, Action, pure, raise,
}
use see_size.Script.Rules.{
  Keeps, Triple-bind, Triple-each, Triple-finally, Keeps-pure, Keeps-raise, Keeps-raise_if,
  Keeps-if, lift-Keeps,
}
use see_size.Script.Files.{ticked}
use see_size.Script.Frame.{Holds, change_lem, read-Keeps}
use see_size.Script.Frame.Keep.{copy_file-Holds, chmod-Holds, rename-Holds}
use see_size.Setup.Cache.Slots.{refuse-Keeps}
use see_size.Setup.Register.Safety.{Untouched, run-Untouched}
use see_size.Rollout.{
  Site, Answer, answered, http_error, broken, root, binary, next_of, sha, user_service, state,
  configs, configs_of, sleep, ask, after_try, health_rounds, health, latest, samples, observe,
  must_refuse, must_succeed, config_units, body_of, get_json, check_servers, check_backup,
  check_trend, check_session, log_out, api_check, replace, switch,
}

-- What stays where only time passes.
module _ (m : Machine) (site : Site) (I : World → Type 0)
    (steady : (w : World) → I w → I (ticked m w w.fs)) where
  sleep-Keeps : Keeps (I) (sleep m site)
  unfolding sleep
  sleep-Keeps = change_lem m (λ fs. fs) steady steady

  ask-Keeps : (question : ℕ → Answer) → Keeps (I) (ask m site question)
  unfolding ask
  ask-Keeps question = record { run = λ w k. steady w k }

  after_try-Keeps :
      (a : Answer) {next : Action (Unit {0})} → Keeps (I) next → Keeps (I) (after_try m site a next)
  unfolding after_try
  after_try-Keeps (answered code body) h = Keeps-if (code == 200) (Keeps-pure tt) h
  after_try-Keeps (http_error code) h = h
  after_try-Keeps (broken os_error) h = h
  after_try-Keeps (broken (value_error s)) h = Keeps-raise _
  after_try-Keeps (broken (runtime_error s)) h = Keeps-raise _
  after_try-Keeps (broken process_error) h = Keeps-raise _
  after_try-Keeps (broken crash) h = Keeps-raise _
  after_try-Keeps (broken (system_exit s)) h = Keeps-raise _
  after_try-Keeps (broken interrupt) h = Keeps-raise _

  health_rounds-Keeps : (n : ℕ) → Keeps (I) (health_rounds m site n)
  unfolding health_rounds
  health_rounds-Keeps zero = Keeps-raise _
  health_rounds-Keeps (suc n) =
      Triple-bind (ask-Keeps _)
        λ a. after_try-Keeps a (Triple-bind sleep-Keeps λ _. health_rounds-Keeps n)

  pub health-Keeps : Keeps I (health m site)
  unfolding health
  health-Keeps = health_rounds-Keeps 30

module _ (m : Machine) (site : Site) (q : FilePath) {b : Bytes} where
  pub health-Holds : Keeps (Holds q b) (health m site)
  health-Holds = health-Keeps m site (Holds q b) (λ w k. k)

  latest-Holds : Keeps (Holds q b) (latest m site)
  unfolding latest
  latest-Holds = record { run = λ w k. (lift-Keeps {I = Holds q b} (site.latest w.tick)).run w k }

  samples-Holds : (n : ℕ) → Keeps (Holds q b) (samples m site n)
  unfolding samples
  samples-Holds zero = Keeps-pure []
  samples-Holds (suc n) = Triple-bind (sleep-Keeps m site (Holds q b) (λ w k. k)) λ _.
      Triple-bind health-Holds
        λ _. Triple-bind latest-Holds λ t. Triple-bind (samples-Holds n) λ rest. Keeps-pure _

  pub observe-Holds : (name : String) → Keeps (Holds q b) (observe m site name)
  unfolding observe
  observe-Holds name = Triple-bind health-Holds λ _. Triple-bind latest-Holds λ first.
      Triple-bind (samples-Holds 3) λ rest. Triple-bind (Keeps-raise_if _ _) λ _. Keeps-pure _

  must_refuse-Holds : (a : Answer) (e : Exc) → Keeps (Holds q b) (must_refuse m site a e)
  unfolding must_refuse
  must_refuse-Holds (answered code body) e = Keeps-raise _
  must_refuse-Holds (http_error code) e = Keeps-raise_if _ _
  must_refuse-Holds (broken f) e = Keeps-raise _

  must_succeed-Holds : (a : Answer) (e : Exc) → Keeps (Holds q b) (must_succeed m site a e)
  unfolding must_succeed
  must_succeed-Holds (answered code body) e = Keeps-raise_if _ _
  must_succeed-Holds (http_error code) e = Keeps-raise _
  must_succeed-Holds (broken f) e = Keeps-raise _

  body_of-Holds : (a : Answer) → Keeps (Holds q b) (body_of m site a)
  unfolding body_of
  body_of-Holds (answered code (some j)) = Keeps-pure j
  body_of-Holds (answered code none) = Keeps-raise _
  body_of-Holds (http_error code) = Keeps-raise _
  body_of-Holds (broken e) = Keeps-raise _

  get_json-Holds : (path : String) → Keeps (Holds q b) (get_json m site path)
  unfolding get_json
  get_json-Holds path = Triple-bind (ask-Keeps m site (Holds q b) (λ w k. k) _) body_of-Holds

  check_servers-Holds : (j : Json) → Keeps (Holds q b) (check_servers m site j)
  unfolding check_servers
  check_servers-Holds j = Triple-bind (lift-Keeps _) λ servers. Triple-bind (lift-Keeps _) λ server.
      Triple-bind (lift-Keeps _) λ agent. Triple-bind (Keeps-raise_if _ _) λ _.
        Triple-bind (lift-Keeps _) λ online. Triple-bind (Keeps-raise_if _ _) λ _.
          Triple-bind (lift-Keeps _) λ metrics.
            Triple-bind (lift-Keeps _)
              λ network. Triple-bind (lift-Keeps _) λ interfaces. Keeps-raise_if _ _

  check_backup-Holds : (j : Json) → Keeps (Holds q b) (check_backup m site j)
  unfolding check_backup
  check_backup-Holds j = Triple-bind (lift-Keeps _) λ configured.
      Triple-bind (Keeps-raise_if _ _) λ _. Triple-bind (lift-Keeps _) λ files.
        Triple-bind (Keeps-raise_if _ _) λ _. Triple-bind (lift-Keeps _) λ last. Keeps-raise_if _ _

  check_trend-Holds : (period : String) → Keeps (Holds q b) (check_trend m site period)
  unfolding check_trend
  check_trend-Holds period =
      Triple-bind (get_json-Holds _)
        λ trend. Triple-bind (lift-Keeps _) λ points. Keeps-raise_if _ _

  check_session-Holds : Keeps (Holds q b) (check_session m site)
  unfolding check_session
  check_session-Holds = Triple-bind (get_json-Holds _) λ servers.
      Triple-bind (check_servers-Holds servers) λ _. Triple-bind (get_json-Holds _) λ backup.
        Triple-bind (check_backup-Holds backup) λ _.
          Triple-bind (Triple-each (λ _. Holds q b) (λ p _. check_trend-Holds p) _) λ _.
            Triple-bind (ask-Keeps m site (Holds q b) (λ w k. k) _)
              λ page. must_succeed-Holds page _

  log_out-Holds : Keeps (Holds q b) (log_out m site)
  unfolding log_out
  log_out-Holds = Triple-bind (ask-Keeps m site (Holds q b) (λ w k. k) _) left
    where
      left :
          (a : Answer)
          → Keeps (Holds q b) (elim a [
            | answered code body ↦ pure tt
            | http_error code ↦ raise os_error
            | broken e ↦ raise e
          ])
      left (answered code body) = Keeps-pure tt
      left (http_error code) = Keeps-raise _
      left (broken e) = Keeps-raise _

  pub api_check-Holds : Keeps (Holds q b) (api_check m site)
  unfolding api_check
  api_check-Holds = Triple-bind (ask-Keeps m site (Holds q b) (λ w k. k) _) λ stranger.
      Triple-bind (must_refuse-Holds stranger _) λ _. Triple-bind (read-Keeps m _) λ credential.
        Triple-bind (ask-Keeps m site (Holds q b) (λ w k. k) _) λ entry.
          Triple-bind (must_succeed-Holds entry _) λ _.
            Triple-bind
              (Triple-finally check_session-Holds (λ _. log_out-Holds) (λ _. log_out-Holds))
              λ _.
                Triple-bind (ask-Keeps m site (Holds q b) (λ w k. k) _)
                  λ leaver. must_refuse-Holds leaver _

  module _ (calm : Untouched m q) where
    pub user_service-Holds : (args : List String) → Keeps (Holds q b) (user_service m site args)
    unfolding user_service
    user_service-Holds args = run-Untouched m q calm _

    pub state-Holds : (u : String) → Keeps (Holds q b) (state m site u)
    unfolding state
    state-Holds u = Triple-bind (user_service-Holds _) λ shown. Keeps-pure _

    configs_of-Holds : (us : List String) → Keeps (Holds q b) (configs_of m site us)
    unfolding configs_of
    configs_of-Holds [] = Keeps-pure _
    configs_of-Holds (u ∷ us) =
        Triple-bind (user_service-Holds _)
          λ shown. Triple-bind (configs_of-Holds us) λ rest. Keeps-pure _

    pub configs-Holds : Keeps (Holds q b) (configs m site)
    unfolding configs
    configs-Holds = configs_of-Holds config_units

    -- A switch leaves the files alone that are not the program or its staging file.
    pub switch-Holds :
        (c : String) (folder : FilePath) (expected : String)
        → q ≢ next_of c
        → q ≢ binary root c
        → Keeps (Holds q b) (switch m site c folder expected)
    unfolding switch replace sha
    switch-Holds c folder expected other apart = Triple-bind (user_service-Holds _) λ _.
        Triple-bind
          (Triple-bind (refuse-Keeps _ _ _) λ _.
            Triple-bind (copy_file-Holds m q _ (next_of c) other) λ _.
              Triple-bind (chmod-Holds m q (next_of c) 0o700) λ _.
                Triple-bind (Triple-bind (read-Keeps m (next_of c)) λ body. Keeps-pure _) λ hash.
                  Triple-bind (Keeps-raise_if _ _)
                    λ _. rename-Holds m q (next_of c) (binary root c) other apart)
          λ _. Triple-bind (user_service-Holds _) λ _. Keeps-pure tt
