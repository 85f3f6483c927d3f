-- ===== src/Enroll.antt =====
-- scripts/enroll-local-migration.py. `Door` has what the Hub answers to a `post`, whose session is
-- kept by the opener, and the reading and writing of texts.
pub mod Safety
use see_size.Base.{ℕ, String, Option, none, some, [], ◌∷◌}
use see_size.Fs.{FilePath, ◌//◌, Bytes, exists}
use see_size.Json.{Json, text, object, end, field}
use see_size.Script.{
  Machine, value_error, crash, system_exit, Result, ok, err, Action, pure, ◌>>=◌, ◌>>◌, or_raise,
  finally,
}
use see_size.Script.Checked.{lift}
use see_size.Script.Files.{ticked, read, write}
use see_size.Setup.Cache.{refuse, create}
use see_size.Setup.Checks.Hub.{strip}
use see_size.Rollout.{root, at_key}

pub record Door : Type 0 where
  pub answer : ℕ → String → Bytes → Result Json
  pub utf8 : Bytes → Option String
  pub encode : String → Bytes

abbrev pub target : FilePath
target = root // "agent.token"

-- `output.write(token)` takes texts only.
as_text : Json → Option String
as_text (text s) = some s
as_text _ = none

module _ (m : Machine) (door : Door) where
  -- `post(path, data)`, which takes a tick.
  post : String → Json → Action Json
  post path j w = (door.answer w.tick path (m.dumps j), ticked m w w.fs)

  -- The file is opened anew, and then the token written.
  save : Json → Action (Unit {0})
  save token = do
    create m target [] 0o600
    s ← or_raise (as_text token) crash
    write m target (door.encode s) 0o600

  -- The body of the `try`.
  pub enroll : Action (Unit {0})
  enroll = do
    enrollment ← post "/api/v1/enrollments" (object (field "agent_id" (text "wsrser-main") end))
    code ← lift (at_key "code" enrollment)
    registration ←
        post "/api/v1/agents/register"
          (object (field "agent_id" (text "wsrser-main") (field "code" code end)))
    token ← lift (at_key "token" registration)
    save token

  log_out : Action (Unit {0})
  log_out = do answer ← post "/api/v1/logout" (object end); pure tt

  unfoldable pub main : Action (Unit {0})
  unfolding as_text post save enroll log_out
  main = do
    refuse (λ fs. exists fs target)
        (system_exit "agent.token already exists; refusing to replace identity")
    raw ← read m (root // "admin.token")
    credential ← or_raise (door.utf8 raw) (value_error "UnicodeDecodeError")
    session ← post "/api/v1/login" (object (field "credential" (text (strip credential)) end))
    finally enroll log_out
