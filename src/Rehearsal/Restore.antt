-- ===== src/Rehearsal/Restore.antt =====
-- The rehearsal leaves the lab's own programs behind.
use package.text.Mathlib.TextEquality.{eq_iff}
use see_size.Base.{String, ◌≡◌, ◌≢◌, list_eq, string_eq, nat_eq, some, List, [], ◌∷◌, arith}
use see_size.Fs.{FilePath, ◌//◌, Bytes, node_content}
use see_size.Script.{Machine, World, Result, ok, err}
use see_size.Script.Files.{spawn}
use see_size.Script.Rules.{
  Outcome, Triple, Keeps, Triple-bind, Triple-each, Triple-weaken, Triple-and, Triple-pure,
  Keeps-and, Keeps-pure, lift-Keeps,
}
use see_size.Script.Frame.{read-Keeps}
use see_size.Script.Frame.Keep.{run_checked-Keeps}
use see_size.Script.Frame.Keep.{write-Holds}
use see_size.Script.Frame.Sure.{Fine, Succeeds, run_sure}
use see_size.Rollout.{binary}
use see_size.Rollout.Main.Recovery.{Triple-attempt}
use see_size.Rehearsal.{
  Vm, lab, original, next_of, replace, digest, stop, user_service, exchange, rehearse, final_hashes,
  put_back, write_report, run_all,
}
use see_size.Rehearsal.Keep.{
  start-Keeps, stop-Keeps, observe-Keeps, with_hashes-Keeps, check_bundle-Keeps,
}
use see_size.Rehearsal.Replace.{replace_sure}
use see_size.Rehearsal.Stock.{
  Stocks, Restored, Leaves, own-Stock, other-Stock, spawn-Stock, replace-NodeAt, hub-Apart,
  agent-Apart, hub_ne_next, agent_ne_next,
}

module _ (m : Machine) (vm : Vm) (fine : Fine m) (hub agent : Bytes) (calm_hub : Leaves m "hub")
    (calm_agent : Leaves m "agent") where
  replace_hub : (folder : FilePath) → Keeps (Stocks hub agent) (replace m vm "hub" folder)
  replace_hub folder =
      Keeps-and (own-Stock m vm fine "hub" hub folder (hub_ne_next m vm fine))
        (other-Stock m vm fine "agent" "hub" agent folder (agent-Apart m vm fine))

  replace_agent : (folder : FilePath) → Keeps (Stocks hub agent) (replace m vm "agent" folder)
  replace_agent folder =
      Keeps-and (other-Stock m vm fine "hub" "agent" hub folder (hub-Apart m vm fine))
        (own-Stock m vm fine "agent" agent folder (agent_ne_next m vm fine))

  calm : (args : List String) → Keeps (Stocks hub agent) (spawn m args)
  calm args =
      Keeps-and (spawn-Stock m vm fine "hub" hub calm_hub args)
        (spawn-Stock m vm fine "agent" agent calm_agent args)

  exchanged :
      (c : String) (folder : FilePath) (label : String)
      → Keeps (Stocks hub agent) (replace m vm c folder)
      → Keeps (Stocks hub agent) (exchange m vm c folder label)
  unfolding exchange
  exchanged c folder label h =
      Triple-bind (stop-Keeps m vm (Stocks hub agent) (λ w k. k) calm c) λ _. Triple-bind h λ _.
        Triple-bind (start-Keeps m vm (Stocks hub agent) (λ w k. k) calm c)
          λ _. observe-Keeps m vm (Stocks hub agent) (λ w k. k) calm label

  rehearse-Keeps : Keeps (Stocks hub agent) (rehearse m vm)
  unfolding rehearse
  rehearse-Keeps = Triple-bind (replace_hub _) λ _. Triple-bind (replace_agent _) λ _.
      Triple-bind (start-Keeps m vm (Stocks hub agent) (λ w k. k) calm _) λ _.
        Triple-bind (start-Keeps m vm (Stocks hub agent) (λ w k. k) calm _) λ _.
          Triple-bind (observe-Keeps m vm (Stocks hub agent) (λ w k. k) calm _) λ _.
            Triple-bind (with_hashes-Keeps m vm (Stocks hub agent) (λ w k. k) calm _) λ hashes.
              Triple-bind (run_checked-Keeps m (Stocks hub agent) calm _) λ prepared.
                Triple-bind
                  (Triple-each (λ _. Stocks hub agent)
                    (λ c _. check_bundle-Keeps m vm (Stocks hub agent) (λ w k. k) calm c) _)
                  λ _. Triple-bind (exchanged _ _ _ (replace_hub _)) λ _.
                    Triple-bind (exchanged _ _ _ (replace_agent _)) λ _.
                      Triple-bind (exchanged _ _ _ (replace_agent _))
                        λ _. exchanged _ _ _ (replace_hub _)

  stop_sure :
      Succeeds m "systemctl"
      → (c : String) → Triple (Stocks hub agent) (stop m vm c) (λ _. Stocks hub agent) (λ _ w. ⊥)
  unfolding stop user_service
  stop_sure good c =
      Triple-bind (run_sure m "systemctl" _ good (calm _)) λ stopped. Triple-pure tt (λ w k. k)

  put_back_sure :
      Succeeds m "systemctl"
      → Triple (Stocks hub agent) (put_back m vm) (λ _. Restored hub agent) (λ _ w. ⊥)
  unfolding put_back
  put_back_sure good = Triple-bind (stop_sure good "agent") λ _.
      Triple-bind (stop_sure good "hub") λ _.
        Triple-bind
          (Triple-weaken (λ w k. (k.0, k.1)) (λ _ w k. k) (λ _ w k. k.0)
            (Triple-and (replace_sure m vm fine "hub" original hub (hub_ne_next m vm fine))
              (other-Stock m vm fine "agent" "hub" agent original (agent-Apart m vm fine))))
          λ _.
            Triple-weaken (λ w k. (k.0, k.1)) (λ _ w k. k) (λ _ w k. k.1)
              (Triple-and
                (replace-NodeAt m vm fine (binary lab "hub") (λ n. node_content n ≡ some hub)
                  "agent" original (hub_next) (hub_other))
                (replace_sure m vm fine "agent" original agent (agent_ne_next m vm fine)))
    where
      hub_next : binary lab "hub" ≢ next_of "agent"
      hub_next h =
          ground (
            arith,
            eq_iff "seesize-hub-linux-amd64" "seesize-agent-linux-amd64.production-test-next",
          )

      hub_other : binary lab "hub" ≢ binary lab "agent"
      hub_other h = ground (arith, eq_iff "seesize-hub-linux-amd64" "seesize-agent-linux-amd64")

  hashes-Restored : (cs : List String) → Keeps (Restored hub agent) (final_hashes m vm cs)
  unfolding final_hashes digest
  hashes-Restored [] = Keeps-pure _
  hashes-Restored (c ∷ cs) =
      Triple-bind (Triple-bind (read-Keeps m _) λ x. Keeps-pure _)
        λ hash. Triple-bind (hashes-Restored cs) λ rest. Keeps-pure _

  report-Restored :
      (ending : Result (Unit {0})) → Keeps (Restored hub agent) (write_report m vm ending)
  unfolding write_report
  report-Restored ending = Triple-bind (hashes-Restored _) λ hashes.
      Triple-bind (record { run = λ w k. k })
        λ text.
          Triple-bind
            (Keeps-and (write-Holds m _ _ _ 0o644 hub_ne_report)
              (write-Holds m _ _ _ 0o644 agent_ne_report))
            λ _. lift-Keeps ending
    where
      hub_ne_report : binary lab "hub" ≢ lab // "production-baseline-acceptance.json"
      hub_ne_report h =
          ground (arith, eq_iff "seesize-hub-linux-amd64" "production-baseline-acceptance.json")

      agent_ne_report : binary lab "agent" ≢ lab // "production-baseline-acceptance.json"
      agent_ne_report h =
          ground (arith, eq_iff "seesize-agent-linux-amd64" "production-baseline-acceptance.json")

  run_all-Restored :
      Succeeds m "systemctl"
      → Triple (Stocks hub agent) (run_all m vm) (λ _. Restored hub agent) (λ _. Restored hub agent)
  unfolding run_all
  run_all-Restored good =
      Triple-bind
        (Triple-weaken {E' = λ _ w. ⊥} (λ w k. k) (λ r w k. either r w k) (λ _ w k. absurd k)
          (Triple-attempt rehearse-Keeps))
        λ ending.
          Triple-bind
            (Triple-weaken (λ w k. k) (λ _ w k. k) (λ _ w k. absurd k) (put_back_sure good))
            λ _. report-Restored ending
    where
      either :
          (r : Result (Unit {0})) (w : World)
          → Outcome (λ _. Stocks hub agent) (λ _. Stocks hub agent) (r, w)
          → Stocks hub agent w
      either (ok u) w k = k
      either (err e) w k = k

-- However the rehearsal goes, whatever the Hub and the database answer, and whether the preparation
-- or a check fails, both programs of the lab are the original ones after it, where no change of a
-- file and no command of `systemctl` fails. Before it both programs and their originals are regular
-- files, and no staging file is there; the commands leave these paths alone.
pub rehearsal_restores :
    (m : Machine) (vm : Vm) (hub agent : Bytes) (w : World)
    → Fine m
    → Succeeds m "systemctl"
    → Leaves m "hub"
    → Leaves m "agent"
    → Stocks hub agent w
    → Outcome (λ _. Restored hub agent) (λ _. Restored hub agent) (run_all m vm w)
rehearsal_restores m vm hub agent w fine good calm_hub calm_agent k =
    (run_all-Restored m vm fine hub agent calm_hub calm_agent good).run w k
