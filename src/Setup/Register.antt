-- ===== src/Setup/Register.antt =====
-- scripts/agent-setup.py: `register`. The registration code goes to the enrolment program by its
-- environment, which is left out: no argument, no file and no message has it.
pub mod Unit
pub mod Safety
use see_size.Base.{
  ℕ, ◌==◌, nat_eq, string_eq, String, Bool, true, false, not, ◌&&◌, ◌||◌, Option, none, some, List,
  [], ◌∷◌, ◌++◌, if◌then◌else◌, bit_and,
}
use see_size.Base.Text.{codes}
use see_size.Fs.{
  FilePath, ◌//◌, Bytes, Fs, is_symlink, is_file, exists, path_text, stat, size, holds, owned_by,
}
use see_size.Script.{Machine, World, value_error, ok, Action, pure, ◌>>=◌, ◌>>◌, raise_if, each}
use see_size.Script.Checked.{lift}
use see_size.Script.Files.{read, unlink, run_checked, run_status, read_line}
use see_size.Setup.{
  root, data_folder, unit, unit_name, account, agent_program, enroll_program, components,
}
use see_size.Setup.Checks.Hub.{strip}
use see_size.Setup.Checks.Manifest.{Connection, saved_connection, saved_release}
use see_size.Setup.Cache.{refuse, create, has_mode}
use see_size.Setup.Preflight.{preflight}
use see_size.Setup.Update.{token, in_root, agent_args, refuse_unowned, check_program, uid_of}

-- The words with a space between two.
unfoldable pub spaced : List String → Bytes
spaced [] = []
spaced (w ∷ []) = codes w
spaced (w ∷ ws) = codes w ++ (b' ' ∷ spaced ws)

abbrev pub unit_head : Bytes
unit_head =
    codes
      "[Unit]\nDescription=SeeSize managed agent\nWants=network-online.target\nAfter=network-online.target\n[Service]\nType=simple\nUser=seesize-agent\nGroup=seesize-agent\n"

abbrev pub unit_tail : Bytes
unit_tail =
    codes
      "Restart=on-failure\nRestartSec=5\nUMask=0077\nNoNewPrivileges=yes\nProtectSystem=strict\nProtectHome=yes\n[Install]\nWantedBy=multi-user.target\n"

module _ (m : Machine) where
  -- `unit`
  pub unit_text : Connection → Bytes
  unit_text c = unit_head ++ (codes "ExecStart=" ++ (spaced (agent_args m c) ++ (10 ∷ unit_tail)))

  abbrev pub empty_file : Fs → FilePath → Bool
  empty_file fs p = holds (λ n. size n == 0) (stat fs p)

  -- An empty reservation of the enrolment program goes; a credential never does.
  pub drop_empty : Action (Unit {0})
  drop_empty w = if exists w.fs token && empty_file w.fs token then unlink m token w else (ok tt, w)

  pub enroll : Connection → Action (Unit {0})
  enroll c = do
    raise_if (not m.is_terminal)
        (value_error "Interactive terminal required for hidden registration code")
    typed ← read_line m
    raise_if (strip typed == "") (value_error "Empty registration code")
    code ← run_status m (
        "runuser"
        ∷ "-u"
        ∷ account
        ∷ "--"
        ∷ path_text (root // enroll_program)
        ∷ "-hub"
        ∷ c.hub
        ∷ "-id"
        ∷ c.identity
        ∷ "-out"
        ∷ path_text token
        ∷ [])
    raise_if (not (code == 0)) (
        value_error
          "Registration failed. Verify URL/ID, generate a fresh code and retry register. Installed files retained; credential/code not printed.")

  pub enroll_if_missing : Connection → Action (Unit {0})
  enroll_if_missing c w = if exists w.fs token then (ok tt, w) else enroll c w

  -- Who the agent is, after all checks of what is installed.
  pub inspect : Action Connection
  inspect = do
    preflight m
    each (root ∷ (root // "connection.json") ∷ (root // "agent-release.json") ∷ in_root components)
        (refuse_unowned m 0 0o022 (value_error "Unsafe installer path"))
    saved ← read m (root // "connection.json")
    connection ← lift (saved_connection m saved)
    raw ← read m (root // "agent-release.json")
    release ← lift (saved_release m raw)
    each components (check_program m root release)
    pure connection

  -- The credential: there before, or enrolled now.
  pub obtain_token : Connection → Action (Unit {0})
  obtain_token c = do
    uid ← uid_of m account
    refuse_unowned m uid 0o077 (value_error "Unsafe credential directory") data_folder
    refuse (λ fs. exists fs unit || is_symlink fs unit)
        (value_error "Service already configured; use status, not register")
    refuse (λ fs. is_symlink fs token) (value_error "Credential symlink refused")
    drop_empty
    enroll_if_missing c
    refuse
        (λ fs.
          not (is_file fs token)
          || empty_file fs token
          || not (owned_by uid fs token)
          || has_mode 0o077 fs token)
        (value_error "Invalid credential file")

  unfoldable pub register : Action (Unit {0})
  unfolding spaced unit_text drop_empty enroll enroll_if_missing inspect obtain_token
  register = do
    connection ← inspect
    obtain_token connection
    create m unit (unit_text connection) 0o644
    reloaded ← run_checked m ("systemctl" ∷ "daemon-reload" ∷ [])
    enabled ← run_checked m ("systemctl" ∷ "enable" ∷ "--now" ∷ unit_name ∷ [])
    pure tt
