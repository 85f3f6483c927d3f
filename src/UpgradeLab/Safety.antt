-- ===== src/UpgradeLab/Safety.antt =====
-- The set up of the lab changes no file that was there.
use see_size.Base.{◌<>◌, String, ◌≡◌, false, List, [], nat_eq}
use see_size.Fs.{FilePath, ◌//◌, Bytes, under, is_dir}
use see_size.Fs.Laws.{outside_child}
use see_size.Json.{Json}
use see_size.Script.{Machine, World, Action}
use see_size.Script.Rules.{
  Outcome, Outcome-if, Keeps, Triple-bind, Triple-each, Triple-finally, Triple-weaken, Triple-given,
  Triple-and, Keeps-pure, Keeps-or_raise, Keeps-raise_if, lift-Keeps,
}
use see_size.Script.Frame.{Holds, read-Keeps}
use see_size.Script.Frame.Keep.{
  write-Holds, copy_file-Holds, chmod-Holds, mkdir-Holds, rmtree-Holds, make_temp_folder-Holds,
  make_temp_folder_named,
}
use see_size.Setup.Cache.Slots.{refuse-Keeps, ne_of_outside, create-Holds}
use see_size.Setup.Register.Safety.{Untouched, spawn-Untouched, run-Untouched}
use see_size.UpgradeLab.{
  Bench, lab, lab_root, check_component, check_package, check_unit, check_program, check_all,
  make_folder, install, create_private, new_token, save_token, agent_environment, make_missing,
  write_unit, make_lab, write_units, main,
}

module _ (m : Machine) (bench : Bench) (q : FilePath) {b : Bytes} (calm : Untouched m q)
    (outside : under (lab_root m) q ≡ false) (elsewhere : under m.temp_folder q ≡ false) where
  check_component-Holds :
      (source : FilePath) (j : Json) (t : FilePath) (c : String × List String)
      → under t q ≡ false
      → Keeps (Holds q b) (check_component m bench source j t c)
  unfolding check_component
  check_component-Holds source j t (c, flags) other = Triple-bind (read-Keeps m _) λ body.
      Triple-bind (lift-Keeps _) λ hashes. Triple-bind (lift-Keeps _) λ hash.
        Triple-bind (Keeps-raise_if _ _) λ _.
          Triple-bind (copy_file-Holds m q _ _ (ne_of_outside t q _ other)) λ _.
            Triple-bind (chmod-Holds m q _ 0o700) λ _.
              Triple-bind (record { run = λ w k. k })
                λ errors.
                  Triple-bind (spawn-Untouched m q calm _)
                    λ r. Triple-bind (lift-Keeps r.ending) λ code. Keeps-raise_if _ _

  check_package-Holds : (source : FilePath) → Keeps (Holds q b) (check_package m bench source)
  unfolding check_package
  check_package-Holds source = Triple-bind (read-Keeps m _) λ raw.
      Triple-bind (Keeps-or_raise _ _) λ j.
        Triple-bind
          (Triple-weaken (λ w k. (k, k)) (λ t w k. (k.0.0, temp_outside t k.1)) (λ _ w k. k.0)
            (Triple-and (make_temp_folder-Holds m q m.temp_folder _)
              (make_temp_folder_named m m.temp_folder _)))
          λ t. Triple-given λ other.
            Triple-finally
              (Triple-each (λ _. Holds q b) (λ c _. check_component-Holds source j t c other) _)
              (λ _. rmtree-Holds m q t other) (λ _. rmtree-Holds m q t other)
    where
      temp_outside :
          (t : FilePath)
          → ((s : String) × (t ≡ m.temp_folder // ("seesize-capabilities-" <> s)))
          → under t q ≡ false
      temp_outside t (s, e) = rw e (outside_child m.temp_folder q _ elsewhere)

  check_all-Holds : (source : FilePath) → Keeps (Holds q b) (check_all m bench source)
  unfolding check_all check_unit check_program
  check_all-Holds source = Triple-bind (check_package-Holds source) λ _.
      Triple-bind (refuse-Keeps _ _ _) λ _.
        Triple-bind
          (Triple-each (λ _. Holds q b)
            (λ name _.
              Triple-bind (spawn-Untouched m q calm _)
                λ r. Triple-bind (lift-Keeps r.ending) λ code. refuse-Keeps _ _ _)
            _)
          λ _.
            Triple-bind
              (record { run = λ w k. (lift-Keeps {I = Holds q b} (bench.bind w.tick)).run w k })
              λ bound. Triple-each (λ _. Holds q b) (λ c _. refuse-Keeps _ _ _) _

  create_private-Holds :
      (name : String) {content : Action String}
      → Keeps (Holds q b) content
      → Keeps (Holds q b) (create_private m bench name content)
  unfolding create_private lab
  create_private-Holds name h =
      Triple-bind
        (Triple-weaken (λ w k. k) (λ _ w k. k.0) (λ _ w k. k) (create-Holds m q _ [] 0o644))
        λ _.
          Triple-bind (chmod-Holds m q _ 0o600) λ _.
            Triple-bind h λ s. write-Holds m q _ _ 0o644 (ne_of_outside (lab_root m) q _ outside)

  make_lab-Holds : (source : FilePath) → Keeps (Holds q b) (make_lab m bench source)
  unfolding make_lab make_folder install save_token new_token agent_environment lab
  make_lab-Holds source = Triple-bind (mkdir-Holds m q _ 0o700) λ _.
      Triple-bind (Triple-each (λ _. Holds q b) (λ name _. mkdir-Holds m q _ 0o700) _) λ _.
        Triple-bind
          (Triple-each (λ _. Holds q b)
            (λ c _.
              Triple-bind (copy_file-Holds m q _ _ (ne_of_outside (lab_root m) q _ outside))
                λ _. chmod-Holds m q _ 0o700)
            _)
          λ _.
            Triple-bind
              (copy_file-Holds m q _ _ (
                ne_of_outside (lab_root m // "candidates") q _
                  (outside_child (lab_root m) q _ outside)))
              λ _.
                Triple-bind
                  (Triple-each (λ _. Holds q b)
                    (λ name _. create_private-Holds name (record { run = λ w k. k })) _)
                  λ _.
                    Triple-bind (write-Holds m q _ _ 0o644 (ne_of_outside (lab_root m) q _ outside))
                      λ _. create_private-Holds _ (
                        Triple-bind (read-Keeps m _)
                          λ raw. Triple-bind (Keeps-or_raise _ _) λ token. Keeps-pure _)

  write_units-Holds : Keeps (Holds q b) (write_units m bench)
  unfolding write_units make_missing write_unit
  write_units-Holds =
      Triple-bind
        (Triple-each (λ _. Holds q b)
          (λ p _. record {
            run = λ w k.
                Outcome-if _ _ (is_dir w.fs p) _ _ (λ _. k)
                  (λ _. (mkdir-Holds m q p 0o755).run w k);
          })
          _)
        λ _.
          Triple-bind
            (Triple-each (λ _. Holds q b)
              (λ u _.
                Triple-bind (create-Holds m q _ [] 0o644)
                  λ _. Triple-given λ apart. write-Holds m q _ _ 0o644 apart)
              _)
            λ _. Triple-bind (run-Untouched m q calm _) λ reloaded. Keeps-pure tt

  main-Holds : (source : FilePath) → Keeps (Holds q b) (main m bench source)
  unfolding main
  main-Holds source =
      Triple-bind (check_all-Holds source)
        λ _. Triple-bind (make_lab-Holds source) λ _. write_units-Holds

-- Wherever the set up of the lab stops, it has changed no regular file outside its new folder and
-- the folder for temporary files: an installed unit or another lab keeps its bytes. The commands do
-- not write to the file.
pub setup_overwrites_nothing :
    (m : Machine) (bench : Bench) (source q : FilePath) (b : Bytes) (w : World)
    → Untouched m q
    → under (lab_root m) q ≡ false
    → under m.temp_folder q ≡ false
    → Holds q b w
    → Outcome (λ _. Holds q b) (λ _. Holds q b) (main m bench source w)
setup_overwrites_nothing m bench source q b w calm outside elsewhere k =
    (main-Holds m bench q calm outside elsewhere source).run w k
