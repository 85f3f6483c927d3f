-- ===== src/ChartHub.antt =====
-- scripts/deploy-chart-hub.py: `request` and `probe`, and scripts/deploy-disk-hub.py: its `probe`.
-- An AssertionError is among the exceptions `crash`. `Web` has what the Hub answers, and the clocks.
pub mod Main
pub mod Keep
use Prim.Native.String.{compare}
use Prim.Native.Nat.{Ordering}
use see_size.Base.{
  ℕ, ◌/◌, ◌*◌, suc, ◌==◌, nat_eq, string_eq, String, ◌<>◌, Bool, true, false, not, ◌&&◌, ◌||◌,
  Option, none, some, List, [], ◌∷◌, if◌then◌else◌, eqb, is_some, length,
}
use see_size.Base.Text.{codes}
use see_size.Fs.{FilePath, ◌//◌, Bytes}
use see_size.Json.{
  Json, null, number, text, array, object, Items, nil, cons, Fields, end, field, get_field,
}
use see_size.Script.{
  Machine, World, value_error, crash, Result, ok, err, Action, pure, ◌>>=◌, ◌>>◌, raise_if,
  or_raise, finally,
}
use see_size.Script.Checked.{lift}
use see_size.Script.Files.{ticked, read}
use see_size.Setup.Checks.Hub.{strip}
use see_size.Rollout.{root, truthy, at_key, is_text}

-- What a request gives: its status, its body as `json.load` and `read` have it, and of the cookie
-- `seesize_session` whether it is secure, and its value.
pub record Response : Type 0 where
  pub status : ℕ
  pub json : Result Json
  pub page : Result Bytes
  pub session : Result (Bool × String)

-- `answer` is `urlopen` of `request(path, cookie, body)`. `iso` is the time as text, with another
-- minute and no seconds. `monotonic` counts nanoseconds. `above` compares values with `>` that are
-- not both texts.
pub record Web : Type 0 where
  pub answer : ℕ → String → Option String → Option Bytes → Result Response
  pub utf8 : Bytes → Option String
  pub minute : ℕ → ℕ
  pub iso : ℕ → ℕ → String
  pub monotonic : ℕ → ℕ
  pub above : Json → Json → Result Bool

-- What a probe returns; only the probe of deploy-disk-hub.py counts snapshots.
pub record Report : Type 0 where
  pub last_seen : Json
  pub points : List (String × ℕ)
  pub disk_snapshots : Option ℕ

-- `assert test`
abbrev pub assert : Bool → Action (Unit {0})
assert test = raise_if (not test) crash

begins : List ℕ → List ℕ → Bool
begins [] s = true
begins (c ∷ p) [] = false
begins (c ∷ p) (d ∷ s) = eqb c d && begins p s

-- `part in page`
pub occurs : List ℕ → List ℕ → Bool
occurs part [] = begins part []
occurs part (c ∷ s) = begins part (c ∷ s) || occurs part s

count_items : Items → ℕ
count_items nil = 0
count_items (cons x xs) = suc (count_items xs)

count_fields : Fields → ℕ
count_fields end = 0
count_fields (field k v rest) = suc (count_fields rest)

-- `len(value)`
len : Json → Result ℕ
len (array xs) = ok (count_items xs)
len (object fs) = ok (count_fields fs)
len (text s) = ok (length (codes s))
len _ = err crash

-- `next(s for s in servers if s['agent_id']=='wsrser-main')`; the end of the list is a
-- StopIteration.
find_main : Items → Result Json
find_main nil = err crash
find_main (cons s rest) =
    let later = find_main rest in
    elim (at_key "agent_id" s) [
      | err e ↦ err e
      | ok agent ↦ if is_text "wsrser-main" agent then ok s else later
    ]

main_server : Json → Result Json
main_server (array servers) = find_main servers
main_server _ = err crash

-- `key in data`; where the data is no object, what follows raises as a failing `assert` does.
has_key : String → Json → Bool
has_key key (object fs) = is_some (get_field key fs)
has_key key _ = false

is_null : Json → Bool
is_null null = true
is_null _ = false

-- `values[0]`
first : Json → Result Json
first (array (cons j rest)) = ok j
first _ = err crash

-- `a > b`
pub is_above : Web → Json → Json → Result Bool
is_above web (text s) (text t) = ok (elim (compare s t) [ Ordering.gt ↦ true | _ ↦ false ])
is_above web a b = web.above a b

module _ (m : Machine) (web : Web) where
  -- `request(path, cookie, body)`, which takes a tick.
  pub request : String → Option String → Option Bytes → Action Response
  request path cookie body w = (web.answer w.tick path cookie body, ticked m w w.fs)

  -- The login with the credential of the file.
  log_in : Action (Bool × String)
  log_in = do
    raw ← read m (root // "admin.token")
    credential ← or_raise (web.utf8 raw) (value_error "UnicodeDecodeError")
    response ←
        request "/api/v1/login" none
          (some (m.dumps (object (field "credential" (text (strip credential)) end))))
    lift response.session

  abbrev cookie_of : Bool × String → String
  cookie_of session = "seesize_session=" <> session.1

  log_out : String → Action (Unit {0})
  log_out cookie = do
    response ← request "/api/v1/logout" (some cookie) (some (codes "{}"))
    assert (response.status == 200)

  get : String → String → Action Json
  get cookie path = do response ← request path (some cookie) none; lift response.json

  get_page : String → Action Bytes
  get_page cookie = do response ← request "/" (some cookie) none; lift response.page

  -- The points of a trend, which are some.
  trend : String → String → Action Json
  trend cookie range = do
    body ← get cookie ("/api/v1/servers/wsrser-main/trend?range=" <> range)
    points ← lift (at_key "points" body)
    assert (truthy points)
    pure points

  trends : String → List String → Action (List (String × ℕ))
  trends cookie [] = pure []
  trends cookie (span ∷ spans) = do
    points ← trend cookie span
    count ← lift (len points)
    rest ← trends cookie spans
    pure ((span, count) ∷ rest)

  -- `now.replace(minute=(now.minute//30)*30,second=0,microsecond=0)`
  half_hour : Action String
  half_hour w = (ok (web.iso w.tick (web.minute w.tick / 30 * 30)), w)

  -- The body of the `try`.
  look : String → Action Report
  look cookie = do
    page ← get_page cookie
    assert (occurs (codes "chart-dialog") page)
    answer ← get cookie "/api/v1/servers"
    servers ← lift (at_key "servers" answer)
    main ← lift (main_server servers)
    online ← lift (at_key "online" main)
    assert (truthy online)
    points ← trends cookie ("30m" ∷ "1h" ∷ "24h" ∷ [])
    until ← half_hour
    recent ← trend cookie ("30m&to=" <> until)
    backup ← request "/api/v1/backup-status" (some cookie) none
    assert (backup.status == 200)
    last_seen ← lift (at_key "last_seen" main)
    pure (record { last_seen = last_seen; points = points; disk_snapshots = none })

  unfoldable pub probe : Action Report
  unfolding request log_in log_out get get_page trend trends half_hour look begins occurs
      count_items count_fields len find_main main_server
  probe = do
    health ← request "/healthz" none none
    answer ← lift health.json
    status ← lift (at_key "status" answer)
    assert (is_text "ok" status)
    session ← log_in
    assert session.0
    finally (look (cookie_of session)) (log_out (cookie_of session))

  -- `data[key]` is empty, zero, false or None.
  assert_empty : String → Json → Action (Unit {0})
  assert_empty key body = do j ← lift (at_key key body); assert (not (truthy j))

  without_snapshots : Json → Action (Unit {0})
  without_snapshots body = do
    reference ← lift (at_key "reference_snapshot" body)
    assert (is_null reference)
    assert_empty "comparable" body

  incomplete : Json → Action (Unit {0})
  incomplete body = do
    assert_empty "comparable" body
    assert_empty "changes" body
    assert_empty "alerts" body

  with_snapshots : Json → Json → Action (Unit {0})
  with_snapshots body snapshots = do
    newest ← lift (first snapshots)
    complete ← lift (at_key "complete" newest)
    if truthy complete then pure tt else incomplete body

  -- The body of the `try` of deploy-disk-hub.py.
  look_disk : Report → String → Action Report
  look_disk report cookie = do
    page ← get_page cookie
    assert (
        occurs (codes "data-disk-sort") page
        && occurs (codes "data-disk-source") page
        && occurs (codes "renderDiskTree") page)
    body ← get cookie "/api/v1/servers/wsrser-main/disk"
    assert (has_key "reference_snapshot" body)
    snapshots ← lift (at_key "snapshots" body)
    if truthy snapshots then with_snapshots body snapshots else without_snapshots body
    count ← lift (len snapshots)
    pure (record report { disk_snapshots = some count })

  unfoldable pub disk_probe : Action Report
  unfolding request log_in log_out get get_page assert_empty without_snapshots incomplete
      with_snapshots look_disk begins occurs count_items count_fields len has_key is_null first
  disk_probe = do
    report ← probe
    session ← log_in
    finally (look_disk report (cookie_of session)) (log_out (cookie_of session))
