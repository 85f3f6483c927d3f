-- ===== src/Rollout.antt =====
-- scripts/deploy-secret-fix-20260927.py: the parts of the rollout. `Site` has what answers over
-- HTTP, the database's newest sample, and the encoding of texts.
pub mod Safety
pub mod Keep
pub mod Main
use see_size.Base.{
  ℕ, zero, suc, ◌==◌, nat_eq, string_eq, String, ◌<>◌, Bool, true, false, not, ◌&&◌, ◌||◌, Option,
  none, some, List, [], ◌∷◌, if◌then◌else◌, leb, length,
}
use see_size.Base.Dict.{Dict}
use see_size.Fs.{FilePath, ◌//◌, Fs, Bytes, is_symlink, exists}
use see_size.Json.{
  Json, null, boolean, number, text, array, object, Items, nil, cons, Fields, end, field, get_field,
}
use see_size.Script.{
  Machine, World, Exc, value_error, runtime_error, os_error, crash, Result, ok, err, Action, pure,
  raise, ◌>>=◌, ◌>>◌, raise_if, catch, finally, each,
}
use see_size.Script.Checked.{lift}
use see_size.Script.Files.{ticked, change, read, copy_file, chmod, rename, run_checked}
use see_size.Setup.Cache.{refuse}
use see_size.Setup.Checks.Hub.{strip}

-- What `urlopen` gives: a response with its body as JSON, an HTTPError, or another exception.
pub data Answer : Type 0 where
  answered : ℕ → Option Json → Answer
  http_error : ℕ → Answer
  broken : Exc → Answer

-- `anonymous` is `urllib.request.urlopen`, and the others are the opener with the session's cookies.
pub record Site : Type 0 where
  pub anonymous : ℕ → String → Answer
  pub login : ℕ → Bytes → Answer
  pub get : ℕ → String → Answer
  pub logout : ℕ → Answer
  pub latest : ℕ → Result (Option ℕ)
  pub encode : String → Bytes
  pub strip_bytes : Bytes → Bytes

abbrev pub root : FilePath
root = [] // "home" // "wsr" // "seesize"

abbrev pub release : String
release = "secret-fix-20260927"

abbrev pub bundle : FilePath
bundle = root // ("pre-" <> release)

abbrev pub stage : FilePath
stage = root // ("migrate-" <> release)

abbrev pub timers : List String
timers = "seesize-backup.timer" ∷ "seesize-maintenance.timer" ∷ []

abbrev pub services : List String
services = "seesize-hub.service" ∷ "seesize-agent.service" ∷ []

abbrev pub config_units : List String
config_units =
    "seesize-hub.service" ∷ "seesize-agent.service" ∷ "seesize-backup.timer"
    ∷ "seesize-maintenance.timer" ∷ "seesize-backup.service" ∷ "seesize-maintenance.service" ∷ []

-- `binary(folder, c)`
abbrev pub binary : FilePath → String → FilePath
binary folder c = folder // ("seesize-" <> c <> "-linux-amd64")

-- `target.with_name(target.name+'.secret-fix-next')`
abbrev pub next_of : String → FilePath
next_of c = root // ("seesize-" <> c <> "-linux-amd64" <> ".secret-fix-next")

-- `any(a is None or b is None or b<=a for a,b in zip(times,times[1:]))`
unfoldable pub stalled : List (Option ℕ) → Bool
stalled [] = false
stalled (a ∷ []) = false
stalled (some a ∷ some b ∷ rest) = leb b a || stalled (some b ∷ rest)
stalled (_ ∷ _ ∷ rest) = true

-- `bool(value)`
pub truthy : Json → Bool
truthy null = false
truthy (boolean b) = b
truthy (number (some n)) = not (n == 0)
truthy (number none) = true
truthy (text s) = not (s == "")
truthy (array nil) = false
truthy (array (cons x xs)) = true
truthy (object end) = false
truthy (object (field k v rest)) = true

-- `j[key]`
pub at_key : String → Json → Result Json
at_key key (object fs) = elim (get_field key fs) [ none ↦ err crash | some j ↦ ok j ]
at_key key _ = err crash

-- `j.get(key)`
get_key : String → Json → Result Json
get_key key (object fs) = elim (get_field key fs) [ none ↦ ok null | some j ↦ ok j ]
get_key key _ = err crash

pub is_text : String → Json → Bool
is_text s (text t) = t == s
is_text s _ = false

is_number : ℕ → Json → Bool
is_number n (number (some k)) = k == n
is_number n _ = false

only_eth0 : Json → Bool
only_eth0 (array (cons (text t) nil)) = t == "eth0"
only_eth0 _ = false

-- The one item of a list. A text or an object in its place is an exception too.
single : Json → Result Json
single (array (cons j nil)) = ok j
single (array items) = err (runtime_error "Unexpected server state")
single _ = err crash

module _ (m : Machine) (site : Site) where
  pub sha : FilePath → Action String
  sha p = do body ← read m p; pure (m.sha256 body)

  pub user_service : List String → Action String
  user_service args = run_checked m ("systemctl" ∷ "--user" ∷ args)

  pub state : String → Action String
  state unit = do
    shown ← user_service ("show" ∷ unit ∷ "-p" ∷ "ActiveState" ∷ "--value" ∷ [])
    pure (strip shown)

  pub configs_of : List String → Action (Dict String String)
  configs_of [] = pure []
  configs_of (u ∷ us) = do
    shown ← user_service ("cat" ∷ u ∷ [])
    rest ← configs_of us
    pure ((u, m.sha256 (site.encode shown)) ∷ rest)

  unfoldable pub configs : Action (Dict String String)
  unfolding configs_of user_service
  configs = configs_of config_units

  -- `time.sleep(…)`, which can be interrupted.
  sleep : Action (Unit {0})
  sleep = change m (λ fs. fs)

  -- One question, which takes a tick.
  pub ask : (ℕ → Answer) → Action Answer
  ask question w = (ok (question w.tick), ticked m w w.fs)

  -- `except OSError: pass`, with the next round.
  pub after_try : Answer → Action (Unit {0}) → Action (Unit {0})
  after_try (answered code body) next = if code == 200 then pure tt else next
  after_try (http_error code) next = next
  after_try (broken os_error) next = next
  after_try (broken e) next = raise e

  pub health_rounds : ℕ → Action (Unit {0})
  health_rounds zero = raise (runtime_error "health timeout")
  health_rounds (suc n) = do
    answer ← ask (λ i. site.anonymous i "/healthz")
    after_try answer (sleep >> health_rounds n)

  pub health : Action (Unit {0})
  health = health_rounds 30

  latest : Action (Option ℕ)
  latest w = (site.latest w.tick, w)

  pub samples : ℕ → Action (List (Option ℕ))
  samples zero = pure []
  samples (suc n) = do sleep; health; t ← latest; rest ← samples n; pure (t ∷ rest)

  -- The times of four samples. The report's copy of them is left out.
  unfoldable pub observe : String → Action (List (Option ℕ))
  unfolding sleep ask after_try health_rounds health latest samples
  observe name = do
    health
    first ← latest
    rest ← samples 3
    raise_if (stalled (first ∷ rest)) (runtime_error ("sampling stalled: " <> name))
    pure (first ∷ rest)

  -- Nothing but a 401 will do.
  pub must_refuse : Answer → Exc → Action (Unit {0})
  must_refuse (answered code body) e = raise e
  must_refuse (http_error code) e = raise_if (not (code == 401)) os_error
  must_refuse (broken e) _ = raise e

  pub must_succeed : Answer → Exc → Action (Unit {0})
  must_succeed (answered code body) e = raise_if (not (code == 200)) e
  must_succeed (http_error code) e = raise os_error
  must_succeed (broken e) _ = raise e

  -- `json.load(r)`
  pub body_of : Answer → Action Json
  body_of (answered code (some j)) = pure j
  body_of (answered code none) = raise (value_error "JSONDecodeError")
  body_of (http_error code) = raise os_error
  body_of (broken e) = raise e

  pub get_json : String → Action Json
  get_json path = do answer ← ask (λ i. site.get i path); body_of answer

  pub check_servers : Json → Action (Unit {0})
  check_servers answer = do
    servers ← lift (at_key "servers" answer)
    server ← lift (single servers)
    agent ← lift (at_key "agent_id" server)
    raise_if (not (is_text "wsrser-main" agent)) (runtime_error "Unexpected server state")
    online ← lift (at_key "online" server)
    raise_if (not (truthy online)) (runtime_error "Unexpected server state")
    metrics ← lift (at_key "metrics" server)
    network ← lift (at_key "network" metrics)
    interfaces ← lift (get_key "interfaces" network)
    raise_if (not (only_eth0 interfaces)) (runtime_error "Network scope changed")

  abbrev unexpected : Exc
  unexpected = runtime_error "Backup state unexpected"

  latest_state : Json → Result Json
  latest_state (object fs) = elim (get_field "latest" fs) [
    | none ↦ ok null
    | some j ↦ get_key "state" j
  ]
  latest_state _ = err crash

  pub check_backup : Json → Action (Unit {0})
  check_backup backup = do
    configured ← lift (get_key "configured" backup)
    raise_if (not (truthy configured)) unexpected
    files ← lift (get_key "files" backup)
    raise_if (not (is_number 7 files)) unexpected
    last ← lift (latest_state backup)
    raise_if (not (is_text "success" last)) unexpected

  pub check_trend : String → Action (Unit {0})
  check_trend period = do
    trend ← get_json ("/api/v1/servers/wsrser-main/trend?range=" <> period)
    points ← lift (get_key "points" trend)
    raise_if (not (truthy points)) (runtime_error ("Empty trend " <> period))

  -- The body of the `try`.
  pub check_session : Action (Unit {0})
  check_session = do
    servers ← get_json "/api/v1/servers"
    check_servers servers
    backup ← get_json "/api/v1/backup-status"
    check_backup backup
    each ("30m" ∷ "1h" ∷ "24h" ∷ []) check_trend
    page ← ask (λ i. site.get i "/")
    must_succeed page (runtime_error "UI unavailable")

  pub log_out : Action (Unit {0})
  log_out = do
    answer ← ask site.logout
    elim answer [
      | answered code body ↦ pure tt
      | http_error code ↦ raise os_error
      | broken e ↦ raise e
    ]

  unfoldable pub api_check : Action (Unit {0})
  unfolding sleep ask must_refuse must_succeed body_of get_json check_servers latest_state
      check_backup check_trend check_session log_out truthy at_key get_key is_text is_number
      only_eth0 single
  api_check = do
    stranger ← ask (λ i. site.anonymous i "/api/v1/servers")
    must_refuse stranger (runtime_error "Unauthenticated access allowed")
    credential ← read m (root // "admin.token")
    entry ← ask (λ i. site.login i (site.strip_bytes credential))
    must_succeed entry (runtime_error "Login failed")
    finally check_session log_out
    leaver ← ask (λ i. site.get i "/api/v1/servers")
    must_refuse leaver (runtime_error "Logout did not invalidate access")

  unfoldable pub replace : String → FilePath → String → Action (Unit {0})
  unfolding sha
  replace c folder expected = do
    refuse (λ fs. exists fs (next_of c) || is_symlink fs (next_of c))
        (runtime_error "Staging collision")
    copy_file m (binary folder c) (next_of c)
    chmod m (next_of c) 0o700
    hash ← sha (next_of c)
    raise_if (not (hash == expected)) (runtime_error "Copy hash mismatch")
    rename m (next_of c) (binary root c)

  unfoldable pub switch : String → FilePath → String → Action (Unit {0})
  unfolding user_service
  switch c folder expected = do
    stopped ← user_service ("stop" ∷ ("seesize-" <> c) ∷ [])
    replace c folder expected
    started ← user_service ("start" ∷ ("seesize-" <> c) ∷ [])
    pure tt
