-- ===== src/Tests/Lab.antt =====
-- A run of the set up of the lab.
use see_size.Base.{◌≡◌, refl, list_eq, string_eq, false, some, [], ◌∷◌}
use see_size.Base.Dict.{lookup}
use see_size.Fs.{FilePath, ◌//◌, file, folder, under}
use see_size.Json.{text, object, end, field}
use see_size.Script.{Machine, World, ok}
use see_size.Script.Rules.{Outcome}
use see_size.Script.Frame.{Holds}
use see_size.Setup.Register.Safety.{Untouched}
use see_size.UpgradeLab.{Bench, lab_root, units, main}
use see_size.UpgradeLab.Safety.{setup_overwrites_nothing}
use see_size.Tests.{machine, node, some_hash, program}

abbrev bench : Bench
bench = record {
  errors = λ i.
      "\n  -backup-dir \n  -admin-token-file \n  -token-file \n  -interval \n  -source \n  -verify \n  -keep ";
  bind = λ i. ok tt;
  token = λ i. "t";
  utf8 = λ b. some "t";
  encode = λ s. 116 ∷ [];
}

-- The manifest has the hash of every program.
abbrev host : Machine
host = record machine {
  loads = λ b. some (
      object (
        field "sha256"
          (object (
            field "seesize-hub-linux-amd64" (text some_hash) (
              field "seesize-agent-linux-amd64" (text some_hash)
                (field "seesize-backup-linux-amd64" (text some_hash) end))))
          end));
  shell = λ i args fs. record { ending = ok 0; stdout = "not-found"; fs = fs };
}

abbrev kit : FilePath
kit = [] // "build"

-- A unit of the user's own.
abbrev own_unit : FilePath
own_unit = units machine // "notes.service"

abbrev vm : World
vm = record {
  fs =
      (kit, node folder 0 0o755)
      ∷ (kit // "build-manifest.json", node (file (1 ∷ [])) 0 0o644)
      ∷ (kit // "seesize-hub-linux-amd64", node (file program) 0 0o755)
      ∷ (kit // "seesize-agent-linux-amd64", node (file program) 0 0o755)
      ∷ (kit // "seesize-backup-linux-amd64", node (file program) 0 0o755)
      ∷ (machine.home, node folder 0 0o700)
      ∷ (own_unit, node (file (5 ∷ [])) 0 0o644)
      ∷ [];
  tick = 0;
  commands = [];
}

unit-Holds : Holds own_unit (5 ∷ []) vm
unfolding string_eq list_eq lookup
unit-Holds = refl

unit-Untouched : Untouched host own_unit
unit-Untouched i args fs = refl

unit_outside : under (lab_root host) own_unit ≡ false
unfolding string_eq list_eq under
unit_outside = refl

unit_elsewhere : under host.temp_folder own_unit ≡ false
unfolding string_eq list_eq under
unit_elsewhere = refl

setup_overwrites_nothing_example :
    Outcome (λ _. Holds own_unit (5 ∷ [])) (λ _. Holds own_unit (5 ∷ [])) (main host bench kit vm)
setup_overwrites_nothing_example =
    setup_overwrites_nothing host bench kit own_unit (5 ∷ []) vm unit-Untouched unit_outside
      unit_elsewhere unit-Holds
