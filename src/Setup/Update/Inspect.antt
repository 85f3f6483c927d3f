-- ===== src/Setup/Update/Inspect.antt =====
-- The checks of what is installed leave the package alone.
use see_size.Base.{ℕ, ◌*◌, ◌^◌, String, Bool, Option, none, some, string_eq, nat_eq, list_eq, ltb}
use see_size.Fs.{FilePath, Fs}
use see_size.Script.{Machine, World, Exc, value_error, crash, or_raise}
use see_size.Script.Files.{read}
use see_size.Script.Rules.{
  Outcome, Keeps, Triple-weaken, Triple-each, Triple-bind, Keeps-raise_if, Keeps-pure, lift-Keeps,
}
use see_size.Script.Frame.{Holds, read_lem, stat_of_lem}
use see_size.Script.Frame.Keep.{Undisturbed}
use see_size.Setup.{root, components}
use see_size.Setup.Checks.Manifest.{Release, hash_of, saved_release, saved_connection}
use see_size.Setup.Checks.Binary.{validate_binary}
use see_size.Setup.Cache.{refuse}
use see_size.Setup.Preflight.{preflight}
use see_size.Setup.Update.{refuse_unowned, check_program, uid_of, check_unit, inspect}
use see_size.Setup.Update.Slots.{LeavesRoot}
use see_size.Setup.Update.Rollback.{property-LeavesRoot}
use see_size.Setup.Update.Switch.{validate_rollback-Keeps}

module _ (m : Machine) where
  module _ {I : World → Type 0} where
    pub look : (p : FilePath) → Keeps I (read m p)
    look p = Triple-weaken (λ w k. k) (λ _ w k. k.0) (λ _ w k. k) (read_lem m p)

    pub refuse-Keeps : (test : Fs → Bool) (e : Exc) → Keeps I (refuse test e)
    refuse-Keeps test e = record { run = λ w k. (Keeps-raise_if (test w.fs) e).run w k }

    pub preflight-Keeps : Keeps I (preflight m)
    unfolding preflight
    preflight-Keeps = Triple-bind (Keeps-raise_if _ _) λ _. Triple-bind (Keeps-raise_if _ _) λ _.
        Triple-bind (look _) λ info. Triple-bind (Keeps-raise_if _ _) λ _.
          Triple-bind (Triple-each (λ _. I) (λ c _. Keeps-raise_if _ _) _) λ _. record {
            run = λ w k.
                (Keeps-raise_if {I = I} (ltb (m.free_bytes w.tick) (512 * 1024 ^ 2))
                    (value_error "At least 512 MiB free required")).run
                  w k;
          }

    pub refuse_unowned-Keeps :
        (uid mask : ℕ) (e : Exc) (p : FilePath) → Keeps I (refuse_unowned m uid mask e p)
    unfolding refuse_unowned
    refuse_unowned-Keeps uid mask e p =
        Triple-bind (refuse-Keeps _ e) λ _. Triple-bind (stat_of_lem m p) λ n. Keeps-raise_if _ _

    pub check_program-Keeps :
        (d : FilePath) (r : Release) (n : String) → Keeps I (check_program m d r n)
    unfolding check_program
    check_program-Keeps d r n =
        Triple-bind (look _)
          λ body. Triple-bind (lift-Keeps (hash_of r n)) λ h. lift-Keeps (validate_binary m body h)

    pub uid_of-Keeps : (name : String) → Keeps I (uid_of m name)
    unfolding uid_of
    uid_of-Keeps name = record { run = λ w k. go w k (m.account w.tick name) }
      where
        go :
            (w : World)
            → I w
            → (o : Option ℕ) → Outcome {A = ℕ} (λ _. I) (λ _. I) (or_raise o crash w)
        go w k none = k
        go w k (some u) = k

  pub inspect-LeavesRoot : Undisturbed m root → LeavesRoot (inspect m)
  unfolding inspect
  inspect-LeavesRoot calm = record {
    at = λ q b i. Triple-bind preflight-Keeps λ _. Triple-bind (Keeps-raise_if _ _) λ _.
        Triple-bind (Triple-each (λ _. Holds q b) (λ p _. refuse_unowned-Keeps _ _ _ p) _) λ _.
          Triple-bind (look _) λ raw. Triple-bind (lift-Keeps (saved_release m raw)) λ r.
            Triple-bind
              (Triple-each (λ _. Holds q b) (λ n _. check_program-Keeps root r n) components)
              λ _. Triple-bind (look _) λ saved.
                Triple-bind (lift-Keeps (saved_connection m saved)) λ c.
                  Triple-bind (uid_of-Keeps _) λ uid.
                    Triple-bind
                      (Triple-each (λ _. Holds q b) (λ p _. refuse_unowned-Keeps _ _ _ p) _)
                      λ _. Triple-bind (refuse-Keeps _ _) λ _. Triple-bind (look _) λ text.
                        Triple-bind (lift-Keeps (check_unit m _ text)) λ _.
                          Triple-bind ((property-LeavesRoot m calm _).at q b i) λ o.
                            Triple-bind (Keeps-raise_if _ _) λ _.
                              Triple-bind ((property-LeavesRoot m calm _).at q b i) λ s.
                                Triple-bind (Keeps-raise_if _ _)
                                  λ _. Triple-bind (validate_rollback-Keeps _ _) λ _. Keeps-pure _;
  }
