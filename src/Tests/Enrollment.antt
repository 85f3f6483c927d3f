-- ===== src/Tests/Enrollment.antt =====
-- Runs of the enrollment of the migrated host.
use see_size.Base.{refl, list_eq, string_eq, some, String, [], ◌∷◌}
use see_size.Base.Dict.{lookup}
use see_size.Fs.{FilePath, ◌//◌, file, folder}
use see_size.Json.{text, object, end, field}
use see_size.Script.{World, ok}
use see_size.Script.Rules.{Outcome}
use see_size.Script.Frame.{Holds}
use see_size.Rollout.{root}
use see_size.Enroll.{Door, target, enroll, main}
use see_size.Enroll.Safety.{Free, Private, Issued, enroll_replaces_nothing, enroll_saves}
use see_size.Tests.{machine, node}

abbrev door : Door
door = record {
  answer = λ i path body. ok (object (field "code" (text "c") (field "token" (text "t") end)));
  utf8 = λ b. some "secret";
  encode = λ s. 116 ∷ [];
}

abbrev admin : FilePath
admin = root // "admin.token"

abbrev migrated : World
migrated = record {
  fs = (root, node folder 1000 0o700) ∷ (admin, node (file (7 ∷ [])) 1000 0o600) ∷ [];
  tick = 0;
  commands = [];
}

-- A token that another process has saved since the look at its path.
abbrev overtaken : World
overtaken = record migrated { fs = (target, node (file (9 ∷ [])) 1000 0o600) ∷ migrated.fs }

target-Holds : Holds target (9 ∷ []) overtaken
unfolding string_eq list_eq lookup
target-Holds = refl

enroll_replaces_nothing_example :
    Outcome
      (λ _ v. Holds target (9 ∷ []) v × Free overtaken)
      (λ _. Holds target (9 ∷ []))
      (enroll machine door overtaken)
    × Outcome
        (λ _. Holds target (9 ∷ []))
        (λ _. Holds target (9 ∷ []))
        (main machine door overtaken)
enroll_replaces_nothing_example =
    enroll_replaces_nothing machine door target (9 ∷ []) overtaken target-Holds

enroll_saves_example :
    Outcome
      (λ _ v. (s : String) × (Private (door.encode s) v × Issued door s))
      (λ _ v. Unit)
      (main machine door migrated)
enroll_saves_example = enroll_saves machine door migrated
