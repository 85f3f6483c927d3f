-- ===== src/Tests/Activation.antt =====
-- Runs of the activation of a Hub.
use package.text.Mathlib.TextEquality.{eq_iff}
use see_size.Base.{
  ℕ, suc, ◌+◌, ◌*◌, ◌≤◌, ◌≡◌, refl, ◌⊎◌, inl, inr, list_eq, string_eq, nat_eq, ◌==◌, ◌||◌, true,
  Option, none, some, String, List, [], ◌∷◌, arith, if◌then◌else◌, contains,
}
use see_size.Base.Dict.{lookup}
use see_size.Base.Text.{codes}
use see_size.Fs.{FilePath, ◌//◌, Bytes, Fs, file, folder, content, put_file}
use see_size.Fs.Laws.{lookup-put_file_ne, content-put_file}
use see_size.Json.{Json, boolean, number, text, array, object, nil, cons, end, field}
use see_size.Fs.Laws.{apart_by_length}
use see_size.Script.{Machine, World, Reply, ok, err, os_error}
use see_size.Script.Rules.{Outcome}
use see_size.Script.Frame.{Holds}
use see_size.Script.Frame.Sure.{Fine, Succeeds}
use see_size.Setup.Register.Safety.{Spared, Untouched}
use see_size.Rollout.{root}
use see_size.Rollout.Main.Timers.{start_command}
use see_size.Rollout.Safety.{Verified}
use see_size.ChartHub.{Web}
use see_size.ChartHub.Main.{charts, live, candidate, stage, expected, start_again, main, wait}
use see_size.ChartHub.Main.Restore.{backup}
use see_size.ChartHub.Main.Deploy.{Backs}
use see_size.ChartHub.Main.Safety.{main_whole, main_restores}
use see_size.ChartHub.Main.Wait.{wait_ends}
use see_size.ChartHub.Main.Timers.{told, start_again-told, timer_skipped}
use see_size.ChartHub.Main.Others.{Written, main_keeps_others}
use see_size.Tests.{machine, node}

-- What the Hub answers: a session, one server, and the time of the question.
abbrev answers : Json
answers = object (
    field "status" (text "ok") (
      field "servers"
        (array (
          cons
            (object (
              field "agent_id" (text "wsrser-main")
                (field "online" (boolean true) (field "last_seen" (number none) end))))
            nil))
        (field "points" (array (cons (text "p") nil)) end)))

abbrev web : Web
web = record {
  answer = λ i path cookie body. ok (record {
    status = 200;
    json = ok answers;
    page = ok (codes "chart-dialog");
    session = ok (true, "s");
  });
  utf8 = λ b. some "secret";
  minute = λ i. 5;
  iso = λ i n. "2026-10-20T00:00:00Z";
  monotonic = λ i. i * 500000000;
  above = λ a b. ok true;
}

abbrev shown : List String → String
shown args =
    if contains args "seesize-maintenance.service" || contains args "seesize-backup.service"
    then "inactive\n"
    else "active\n"

-- The preparation copies the live Hub.
copied : Fs → Option Bytes → Reply
copied fs none = record { ending = ok 1; stdout = ""; fs = fs }
copied fs (some b) = record {
  ending = ok 0;
  stdout = "";
  fs = put_file (backup charts) b 1000 0o700 0 fs;
}

commands : List String → Fs → Reply
commands [] fs = record { ending = ok 0; stdout = ""; fs = fs }
commands (p ∷ args) fs =
    if p == "systemctl"
    then record { ending = ok 0; stdout = shown args; fs = fs }
    else copied fs (content fs live)

abbrev host : Machine
host = record machine { shell = λ i args fs. commands args fs; sha256 = λ b. expected charts }

abbrev before : World
before = record {
  fs =
      (root, node folder 1000 0o700)
      ∷ (live, node (file (5 ∷ [])) 1000 0o700)
      ∷ (root // "seesize-agent-linux-amd64", node (file (9 ∷ [])) 1000 0o700)
      ∷ (root // "admin.token", node (file (7 ∷ [])) 1000 0o600)
      ∷ (root // "agent.token", node (file (8 ∷ [])) 1000 0o600)
      ∷ (stage charts, node folder 1000 0o700)
      ∷ (candidate charts, node (file (6 ∷ [])) 1000 0o700)
      ∷ [];
  tick = 0;
  commands = [];
}

all-Spared : (q : FilePath) → Spared host q
unfolding commands string_eq
all-Spared q i args fs = refl

host-Fine : Fine host
host-Fine i = refl

host-Succeeds : Succeeds host "systemctl"
unfolding commands string_eq
host-Succeeds i args fs = refl

host-Backs : Backs host charts
unfolding commands string_eq copied
host-Backs i fs = go (content fs live) refl
  where
    go :
        (o : Option Bytes)
        → content fs live ≡ o
        → (lookup live (copied fs o).fs ≡ lookup live fs)
          × (lookup (candidate charts) (copied fs o).fs ≡ lookup (candidate charts) fs)
          × ((copied fs o).ending ≡ ok 0
              → content (copied fs o).fs (backup charts) ≡ content fs live)
    go none is = (refl, refl, λ no. cc)
    go (some b) is = (
      lookup-put_file_ne (backup charts) live b 1000 0o700 0 fs (apart_by_length _ _ (omega arith)),
      lookup-put_file_ne (backup charts) (candidate charts) b 1000 0o700 0 fs (λ h.
          ground
            (arith, eq_iff "restore-check-chart-deploy-e0f1030" "pre-charts-20261020-e0f1030")),
      λ fine. ground (arith, is, content-put_file (backup charts) b 1000 0o700 0 fs),
    )

candidate-Holds : Holds (candidate charts) (6 ∷ []) before
unfolding string_eq list_eq lookup
candidate-Holds = refl

live-Holds : Holds live (5 ∷ []) before
unfolding string_eq list_eq lookup
live-Holds = refl

main_whole_example :
    Outcome
      (λ _. Verified host live (expected charts))
      (λ _ v. Holds live (5 ∷ []) v ⊎ Verified host live (expected charts) v)
      (main host web charts before)
main_whole_example =
    main_whole host web charts (6 ∷ []) (5 ∷ []) before (all-Spared live)
      (all-Spared (candidate charts)) (all-Spared (backup charts)) host-Backs candidate-Holds
      live-Holds

main_restores_example :
    Outcome
      (λ _. Verified host live (expected charts))
      (λ _. Holds live (5 ∷ []))
      (main host web charts before)
main_restores_example =
    main_restores host web charts (6 ∷ []) (5 ∷ []) before host-Fine host-Succeeds (all-Spared live)
      (all-Spared (candidate charts)) (all-Spared (backup charts)) host-Backs candidate-Holds
      live-Holds

abbrev agent : FilePath
agent = root // "seesize-agent-linux-amd64"

agent-Holds : Holds agent (9 ∷ []) before
unfolding string_eq list_eq lookup
agent-Holds = refl

agent-Untouched : Untouched machine agent
agent-Untouched i args fs = refl

agent-ne-Written : Written charts agent → ⊥
agent-ne-Written (inl h) =
    ground (arith, eq_iff "seesize-agent-linux-amd64" "seesize-hub-linux-amd64")
agent-ne-Written (inr (inl h)) =
    ground (arith, eq_iff "seesize-agent-linux-amd64" ".maintenance.lock")
agent-ne-Written (inr (inr (inl h))) = apart_by_length _ _ (omega arith) h
agent-ne-Written (inr (inr (inr (inl h)))) = apart_by_length _ _ (omega arith) h
agent-ne-Written (inr (inr (inr (inr h)))) = apart_by_length _ _ (omega arith) h

main_keeps_others_example :
    Outcome (λ _. Holds agent (9 ∷ [])) (λ _. Holds agent (9 ∷ [])) (main machine web charts before)
main_keeps_others_example =
    main_keeps_others machine web charts agent (9 ∷ []) before agent-Untouched agent-ne-Written
      agent-Holds

rounds : (k : ℕ) → 0 * 500000000 + k * 1000000000 ≤ suc (0 + 2 * k) * 500000000
rounds k = omega arith

wait_ends_example :
    wait host web 200 120000000000 "seesize-hub" before
    ≡ wait host web 122 120000000000 "seesize-hub" before
wait_ends_example =
    wait_ends host web 120000000000 200 "seesize-hub" before (omega arith) (omega arith)
      (λ k. rounds k)

abbrev two_timers : List (String × String)
two_timers = ("seesize-maintenance.timer", "active") ∷ ("seesize-backup.timer", "inactive") ∷ []

start_again-told_example :
    Outcome
      (λ _ v. v.commands ≡ told two_timers [])
      (λ _ v. Unit)
      (start_again host web two_timers before)
start_again-told_example = start_again-told host web two_timers before

-- A machine on which every command fails.
abbrev broken_host : Machine
broken_host = record machine {
  shell = λ i args fs. record { ending = err os_error; stdout = ""; fs = fs };
}

timer_skipped_example :
    Outcome
      (λ _ v. ⊥)
      (λ _ v. v.commands ≡ start_command "seesize-maintenance.timer" ∷ [])
      (start_again broken_host web
        (("seesize-maintenance.timer", "active") ∷ ("seesize-backup.timer", "active") ∷ [])
        before)
timer_skipped_example =
    timer_skipped broken_host web "seesize-maintenance.timer"
      (("seesize-backup.timer", "active") ∷ []) before (λ args fs h. cc)
