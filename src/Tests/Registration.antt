-- ===== src/Tests/Registration.antt =====
-- Runs of `install` and `register`.
use see_size.Base.{
  List, String, ◌==◌, if◌then◌else◌, ◌≡◌, refl, list_eq, string_eq, nat_eq, true, none, [], ◌∷◌,
  arith,
}
use see_size.Base.Dict.{lookup, insert}
use see_size.Base.Text.{codes, all_of}
use see_size.Fs.{FilePath, ◌//◌, Fs, file, folder, stat}
use see_size.Script.{Machine, World, ok}
use see_size.Script.Rules.{Outcome}
use see_size.Script.Frame.{Holds}
use see_size.Setup.{root, unit, data_folder, agent_program, enroll_program}
use see_size.Setup.Checks.Manifest.{Connection, saved_connection}
use see_size.Setup.Update.{token, agent_args, check_unit}
use see_size.Setup.Register.{register, unit_text}
use see_size.Setup.Register.Unit.{SplitsWords, IsWord, plain-IsWord, check_unit-unit_text}
use see_size.Setup.Register.Safety.{
  Untouched, Spared, register_lem, register_refused, register-Holds,
}
use see_size.Setup.Install.{install}
use see_size.Setup.Install.Safety.{any_taken, paths, install_refused}
use see_size.Tests.{machine, node, program, installed, unit-Holds}
use see_size.Tests.Words.{split, split-spaced}

-- The machine with a reading of words that does what `shlex.split` does for plain ones.
abbrev splitting : Machine
splitting = record machine { shlex_split = λ s. split s }

splits : SplitsWords splitting
splits ws h = split-spaced ws h

untouched : (p : FilePath) → Untouched splitting p
untouched p i args fs = refl

-- An enrolment program that writes a new token over what is there.
abbrev enrolled : List String → Fs → Fs
enrolled [] fs = fs
enrolled (command ∷ args) fs =
    if command == "runuser" then insert token (node (file (9 ∷ [])) 999 0o600) fs else fs

abbrev enrolling : Machine
enrolling = record splitting {
  shell = λ i args fs. record { ending = ok 0; stdout = "active"; fs = enrolled args fs };
}

spared : (p : FilePath) → Spared enrolling p
unfolding string_eq
spared p i args fs = refl

abbrev connection : Connection
connection = record { hub = "https://hub.example"; identity = "vm-1" }

hub-IsWord : IsWord connection.hub
unfolding all_of string_eq
hub-IsWord = plain-IsWord "https://hub.example" refl refl

identity-IsWord : IsWord connection.identity
unfolding all_of string_eq
identity-IsWord = plain-IsWord "vm-1" refl refl

check_unit-unit_text_example :
    check_unit splitting (agent_args splitting connection) (unit_text splitting connection) ≡ ok tt
check_unit-unit_text_example =
    check_unit-unit_text splitting connection splits hub-IsWord identity-IsWord

-- A package that is installed and not registered, with a credential.
abbrev unregistered : World
unregistered = record {
  fs =
      (root, node folder 0 0o755)
      ∷ (root // agent_program, node (file program) 0 0o755)
      ∷ (root // enroll_program, node (file program) 0 0o755)
      ∷ (root // "agent-release.json", node (file (1 ∷ [])) 0 0o644)
      ∷ (root // "connection.json", node (file (3 ∷ [])) 0 0o644)
      ∷ (data_folder, node folder 999 0o700)
      ∷ (token, node (file (7 ∷ [])) 999 0o600)
      ∷ ([] // "etc" // "os-release", node (file (codes "ID=ubuntu\n")) 0 0o644)
      ∷ [];
  tick = 0;
  commands = [];
}

connection-Holds : Holds (root // "connection.json") (3 ∷ []) unregistered
unfolding string_eq list_eq lookup
connection-Holds = refl

token-Holds : Holds token (7 ∷ []) unregistered
unfolding string_eq list_eq lookup
token-Holds = refl

register_lem_example :
    Outcome
      (λ _ v.
        (c : Connection) × (saved_connection splitting (3 ∷ []) ≡ ok c)
        × Holds unit (unit_text splitting c) v
        × (check_unit splitting (agent_args splitting c) (unit_text splitting c) ≡ ok tt))
      (λ _ v. Unit)
      (register splitting unregistered)
register_lem_example =
    register_lem splitting (3 ∷ []) unregistered splits (untouched unit) connection-Holds

register_refused_example :
    Outcome
      (λ _ v. ⊥)
      (λ _ v. (v.fs ≡ installed.fs) × (v.commands ≡ installed.commands))
      (register machine installed)
register_refused_example =
    register_refused machine (codes "[Service]\nExecStart=agent\n") installed unit-Holds

register-Holds_example :
    Outcome
      (λ _. Holds token (7 ∷ []))
      (λ _. Holds token (7 ∷ []))
      (register enrolling unregistered)
register-Holds_example =
    register-Holds enrolling (7 ∷ []) unregistered (omega arith) (spared token) token-Holds

installed_taken : any_taken installed.fs paths ≡ true
unfolding any_taken stat lookup string_eq list_eq
installed_taken = refl

install_refused_example :
    Outcome
      (λ _ v. ⊥)
      (λ _ v. (v.fs ≡ installed.fs) × (v.commands ≡ installed.commands))
      (install machine "v0.2.0" none installed)
install_refused_example = install_refused machine installed "v0.2.0" none installed_taken
