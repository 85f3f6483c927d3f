-- ===== src/Tests/Rehearsing.antt =====
-- A run of the rehearsal on the lab.
use see_size.Base.{refl, list_eq, string_eq, some, String, [], ◌∷◌}
use see_size.Base.Dict.{lookup}
use see_size.Fs.{file, folder}
use see_size.Script.{World, ok}
use see_size.Script.Rules.{Outcome}
use see_size.Script.Frame.Sure.{Fine, Succeeds}
use see_size.Rollout.{binary}
use see_size.Rehearsal.{Vm, lab, baseline, original, run_all}
use see_size.Rehearsal.Stock.{Leaves, Stocks, Restored}
use see_size.Rehearsal.Restore.{rehearsal_restores}
use see_size.Tests.{machine, node}

abbrev vm : Vm
vm = record {
  hostname = "wsr";
  health = λ i. ok 200;
  row = λ i. ok (i, some i);
  report = λ i passed hashes. 1 ∷ [];
}

abbrev stocked : World
stocked = record {
  fs =
      (lab, node folder 1000 0o700)
      ∷ (binary lab "hub", node (file (1 ∷ [])) 1000 0o700)
      ∷ (binary lab "agent", node (file (2 ∷ [])) 1000 0o700)
      ∷ (original, node folder 1000 0o700)
      ∷ (binary original "hub", node (file (1 ∷ [])) 1000 0o700)
      ∷ (binary original "agent", node (file (2 ∷ [])) 1000 0o700)
      ∷ (binary baseline "hub", node (file (3 ∷ [])) 1000 0o700)
      ∷ (binary baseline "agent", node (file (4 ∷ [])) 1000 0o700)
      ∷ [];
  tick = 0;
  commands = [];
}

machine-Fine : Fine machine
machine-Fine i = refl

machine-Succeeds : Succeeds machine "systemctl"
machine-Succeeds i args fs = refl

machine-Leaves : (c : String) → Leaves machine c
machine-Leaves c = (λ i args fs. refl, λ i args fs. refl, λ i args fs. refl)

stocked-Stocks : Stocks (1 ∷ []) (2 ∷ []) stocked
unfolding string_eq list_eq lookup
stocked-Stocks = (((((1 ∷ []), refl), refl), refl), ((((2 ∷ []), refl), refl), refl))

rehearsal_restores_example :
    Outcome
      (λ _. Restored (1 ∷ []) (2 ∷ []))
      (λ _. Restored (1 ∷ []) (2 ∷ []))
      (run_all machine vm stocked)
rehearsal_restores_example =
    rehearsal_restores machine vm (1 ∷ []) (2 ∷ []) stocked machine-Fine machine-Succeeds
      (machine-Leaves "hub") (machine-Leaves "agent") stocked-Stocks
