-- ===== src/Rehearsal/Keep.antt =====
-- What the steps of the rehearsal leave alone that exchange no program.
use see_size.Base.{ℕ, zero, suc, String, List, [], ◌∷◌}
use see_size.Fs.{FilePath}
use see_size.Script.{Machine, World}
use see_size.Script.Files.{ticked, spawn}
use see_size.Script.Rules.{
  Keeps, Triple-bind, Triple-each, Keeps-pure, Keeps-raise_if, Keeps-or_raise, lift-Keeps,
}
use see_size.Script.Frame.{change_lem, read-Keeps}
use see_size.Script.Frame.Keep.{run_checked-Keeps}
use see_size.Setup.Cache.Slots.{refuse-Keeps}
use see_size.Rehearsal.{
  Vm, digest, user_service, sleep, start, stop, ask_health, ask_row, sample, samples, observe,
  with_hashes, check_bundle, check_component, check_all,
}

module _ (m : Machine) (vm : Vm) (I : World → Type 0)
    (steady : (w : World) → I w → I (ticked m w w.fs))
    (calm : (args : List String) → Keeps I (spawn m args)) where
  pub digest-Keeps : (p : FilePath) → Keeps I (digest m vm p)
  unfolding digest
  digest-Keeps p = Triple-bind (read-Keeps m p) λ body. Keeps-pure _

  service-Keeps : (args : List String) → Keeps I (user_service m vm args)
  unfolding user_service
  service-Keeps args = run_checked-Keeps m I calm _

  sleep-Keeps : Keeps I (sleep m vm)
  unfolding sleep
  sleep-Keeps = change_lem m (λ fs. fs) steady steady

  pub start-Keeps : (c : String) → Keeps I (start m vm c)
  unfolding start
  start-Keeps c = Triple-bind (service-Keeps _) λ _. sleep-Keeps

  pub stop-Keeps : (c : String) → Keeps I (stop m vm c)
  unfolding stop
  stop-Keeps c = Triple-bind (service-Keeps _) λ _. Keeps-pure tt

  sample-Keeps : Keeps I (sample m vm)
  unfolding sample ask_health ask_row
  sample-Keeps =
      Triple-bind
        (record {
          run = λ w k. (lift-Keeps {I = I} (vm.health w.tick)).run (ticked m w w.fs) (steady w k);
        })
        λ status. Triple-bind (Keeps-raise_if _ _) λ _. record {
          run = λ w k. (lift-Keeps {I = I} (vm.row w.tick)).run (ticked m w w.fs) (steady w k);
        }

  samples-Keeps : (n : ℕ) → Keeps I (samples m vm n)
  unfolding samples
  samples-Keeps zero = Keeps-pure _
  samples-Keeps (suc n) =
      Triple-bind sleep-Keeps
        λ _. Triple-bind sample-Keeps λ row. Triple-bind (samples-Keeps n) λ later. Keeps-pure _

  pub observe-Keeps : (label : String) → Keeps I (observe m vm label)
  unfolding observe
  observe-Keeps label = Triple-bind sample-Keeps λ first.
      Triple-bind (samples-Keeps 3)
        λ later. Triple-bind (lift-Keeps _) λ none_new. Keeps-raise_if _ _

  pub with_hashes-Keeps : (cs : List String) → Keeps I (with_hashes m vm cs)
  unfolding with_hashes
  with_hashes-Keeps [] = Keeps-pure _
  with_hashes-Keeps (c ∷ cs) =
      Triple-bind (digest-Keeps _) λ hash. Triple-bind (with_hashes-Keeps cs) λ rest. Keeps-pure _

  pub check_bundle-Keeps : (c : String) → Keeps I (check_bundle m vm c)
  unfolding check_bundle
  check_bundle-Keeps c = Triple-bind (digest-Keeps _) λ hash. Keeps-raise_if _ _

  pub check_all-Keeps : Keeps I (check_all m vm)
  unfolding check_all check_component
  check_all-Keeps = Triple-bind (refuse-Keeps _ _ _) λ _. Triple-bind (read-Keeps m _) λ raw.
      Triple-bind (Keeps-or_raise _ _) λ j.
        Triple-bind
          (Triple-each (λ _. I)
            (λ c _. Triple-bind (digest-Keeps _) λ base. Triple-bind (Keeps-raise_if _ _) λ _.
              Triple-bind (digest-Keeps _) λ new. Triple-bind (lift-Keeps _) λ hashes.
                Triple-bind (lift-Keeps _) λ hash. Triple-bind (Keeps-raise_if _ _) λ _.
                  Triple-bind (digest-Keeps _) λ here. Triple-bind (digest-Keeps _) λ there.
                    Triple-bind (Keeps-raise_if _ _) λ _. Triple-bind (calm _) λ r.
                      Triple-bind (lift-Keeps _) λ code.
                        Triple-bind (Keeps-raise_if _ _)
                          λ _. Triple-bind (service-Keeps _) λ command. Keeps-raise_if _ _)
            _)
          λ _. refuse-Keeps _ _ _
