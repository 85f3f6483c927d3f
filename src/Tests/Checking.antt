-- ===== src/Tests/Checking.antt =====
-- Runs of the check of a deployment.
use see_size.Base.{String, List, contains, if◌then◌else◌, string_eq, ◌≡◌, refl, true, some, [], ◌∷◌}
use see_size.Fs.{FilePath, ◌//◌, file, folder}
use see_size.Json.{text, object, end, field}
use see_size.Script.{World, Machine, ok}
use see_size.Script.Rules.{Outcome}
use see_size.Deployment.{Host, Args, installed, main}
use see_size.Deployment.Safety.{Deployable, main-Deployable}
use see_size.Deployment.ReadOnly.{QuietQueries, Asked, main-Asked}
use see_size.Tests.{machine, node, program, candidate_path}

abbrev host : Host
host = record {
  uid = 1000;
  access = λ fs p mode. true;
  port_free = λ port. true;
  healthz = λ port. some (200, some (object (field "status" (text "ok") end)));
  number_text = λ n. "many";
}

abbrev app : FilePath
app = candidate_path "app"

abbrev deployed : World
deployed = record {
  fs =
      (app, node folder 1000 0o700)
      ∷ (app // "seesize-hub-linux-amd64", node (file program) 1000 0o700)
      ∷ (app // "seesize-agent-linux-amd64", node (file program) 1000 0o700)
      ∷ (app // "seesize-backup-linux-amd64", node (file program) 1000 0o700)
      ∷ (app // "admin.token", node (file (7 ∷ [])) 1000 0o600)
      ∷ (app // "agent.token", node (file (7 ∷ [])) 1000 0o600)
      ∷ (app // "data", node folder 1000 0o700)
      ∷ (app // "backups", node folder 1000 0o700)
      ∷ [];
  tick = 0;
  commands = [];
}

abbrev run_args : Args
run_args = record { root = "app"; mode = installed; port = 18081 }

-- The answers of a host where all is well.
abbrev answer : List String → String
answer args =
    if contains args "Linger"
    then "yes"
    else if contains args "is-system-running"
    then "running"
    else if contains args "is-enabled"
    then "enabled"
    else "active"

abbrev ready : Machine
ready = record machine {
  shell = λ i args fs. record { ending = ok 0; stdout = answer args; fs = fs };
  free_bytes = λ i. 4294967296;
}

queries_quiet : QuietQueries machine
queries_quiet i args fs q = refl

main-Deployable_example :
    Outcome
      (λ (code, checks) v. code ≡ 0 → Deployable ready host deployed run_args)
      (λ _ v. Unit)
      (main ready host run_args deployed)
main-Deployable_example = main-Deployable ready host deployed run_args

main-Asked_example :
    Outcome (λ _. Asked deployed) (λ _. Asked deployed) (main machine host run_args deployed)
main-Asked_example = main-Asked machine host deployed queries_quiet run_args tt
