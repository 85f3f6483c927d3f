-- ===== src/Tests/Releasing.antt =====
-- Runs of the parts of a rollout.
use see_size.Base.{ℕ, ◌≡◌, refl, ◌⊎◌, list_eq, string_eq, Option, none, some, List, [], ◌∷◌, length}
use see_size.Base.Dict.{lookup}
use see_size.Fs.{FilePath, ◌//◌, file, folder}
use see_size.Json.{object, end}
use see_size.Script.{World, ok, err, os_error}
use see_size.Script.Rules.{Outcome}
use see_size.Script.Frame.{Holds}
use see_size.Setup.Register.Safety.{Untouched}
use see_size.Rollout.{Site, answered, root, bundle, binary, next_of, observe, switch}
use see_size.Rollout.Safety.{
  Verified, Newer, Sampled, switch_program_lem, switch_collides, observe-Newer,
}
use see_size.Rollout.Main.{Desk, Ending, rolled_back, rollout, conclude}
use see_size.Rollout.Main.Timers.{Uninterrupted, Started, conclude-Started}
use see_size.Rollout.Main.Recovery.{After, rollout-After}
use see_size.Tests.{machine, node, some_hash}

-- A site whose samples have the time of the question.
abbrev site : Site
site = record {
  anonymous = λ i path. answered 200 none;
  login = λ i credential. answered 200 none;
  get = λ i path. answered 200 (some (object end));
  logout = λ i. answered 200 none;
  latest = λ i. ok (some i);
  encode = λ s. [];
  strip_bytes = λ b. b;
}

abbrev candidates : FilePath
candidates = bundle // "candidates"

abbrev hub : FilePath
hub = binary root "hub"

abbrev released : World
released = record {
  fs =
      (root, node folder 1000 0o700)
      ∷ (hub, node (file (5 ∷ [])) 1000 0o700)
      ∷ (bundle, node folder 1000 0o700)
      ∷ (candidates, node folder 1000 0o700)
      ∷ (binary candidates "hub", node (file (6 ∷ [])) 1000 0o700)
      ∷ [];
  tick = 0;
  commands = [];
}

hub-Holds : Holds hub (5 ∷ []) released
unfolding string_eq list_eq lookup
hub-Holds = refl

hub-Untouched : Untouched machine hub
hub-Untouched i args fs = refl

switch_program_lem_example :
    Outcome
      (λ _. Verified machine hub some_hash)
      (λ _ v. Holds hub (5 ∷ []) v ⊎ Verified machine hub some_hash v)
      (switch machine site "hub" candidates some_hash released)
switch_program_lem_example =
    switch_program_lem machine site "hub" candidates some_hash (5 ∷ []) released hub-Untouched
      hub-Holds

observe-Newer_example :
    Outcome
      (λ times v.
        (first : Option ℕ) × ((rest : List (Option ℕ)) × ((times ≡ first ∷ rest)
            × (length rest ≡ 3)
            × Newer first rest
            × Sampled machine site released.tick times)))
      (λ _ v. Unit)
      (observe machine site "hub-upgraded" released)
observe-Newer_example = observe-Newer machine site "hub-upgraded" released

-- A switch of the Hub has failed after its copy.
abbrev half_staged : World
half_staged = record released {
  fs = (next_of "hub", node (file (6 ∷ [])) 1000 0o700) ∷ released.fs;
}

next-Holds : Holds (next_of "hub") (6 ∷ []) half_staged
unfolding string_eq list_eq lookup
next-Holds = refl

next-Untouched : Untouched machine (next_of "hub")
next-Untouched i args fs = refl

switch_collides_example :
    Outcome
      (λ _ v. ⊥)
      (λ _ v. v.commands ≡ ("systemctl" ∷ "--user" ∷ "stop" ∷ "seesize-hub" ∷ []) ∷ [])
      (switch machine site "hub" bundle some_hash half_staged)
switch_collides_example =
    switch_collides machine site "hub" bundle some_hash (6 ∷ []) half_staged next-Untouched
      next-Holds

-- Both programs, and what the script stages.
abbrev running_pair : World
running_pair = record released {
  fs = (binary root "agent", node (file (9 ∷ [])) 1000 0o700) ∷ released.fs;
}

pair-hub-Holds : Holds hub (5 ∷ []) running_pair
unfolding string_eq list_eq lookup
pair-hub-Holds = refl

pair-agent-Holds : Holds (binary root "agent") (9 ∷ []) running_pair
unfolding string_eq list_eq lookup
pair-agent-Holds = refl

agent-Untouched : Untouched machine (binary root "agent")
agent-Untouched i args fs = refl

rollout-After_example :
    Outcome
      (λ ending v. After machine (5 ∷ []) (9 ∷ []) ending.status v)
      (λ _ v. ⊥)
      (rollout machine site [] running_pair)
rollout-After_example =
    rollout-After machine site hub-Untouched agent-Untouched (5 ∷ []) (9 ∷ []) [] running_pair
      pair-hub-Holds pair-agent-Holds

machine-Uninterrupted : Uninterrupted machine
machine-Uninterrupted i args fs e h = cc

abbrev desk : Desk
desk = record { uid = 1000; report = λ i ending failed hashes states. [] }

abbrev rolled : Ending
rolled = record { result = err os_error; status = rolled_back; error = some os_error }

conclude-Started_example :
    Outcome (λ _. Started) (λ _. Started) (conclude machine site desk rolled running_pair)
conclude-Started_example =
    conclude-Started machine site machine-Uninterrupted desk rolled running_pair
