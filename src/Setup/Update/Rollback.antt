-- ===== src/Setup/Update/Rollback.antt =====
-- The return to the old package when the switch fails.
use see_size.Base.{String, nat_eq, string_eq, list_eq, ap, List, arith, length}
use see_size.Fs.{FilePath, ◌//◌, Bytes}
use see_size.Script.{Machine, World, Exc, value_error, system_exit, Action}
use see_size.Script.Rules.{
  Triple, Keeps, Keeps-and, Triple-weaken, Keeps-all, Triple-each, Triple-bind, Triple-catch,
  Keeps-raise, Triple-raise, Keeps-raise_if,
}
use see_size.Script.Frame.{Holds, read_lem}
use see_size.Script.Frame.Keep.{
  Undisturbed, spawn-Holds, run_checked-Keeps, run_status-Keeps, unlink-Holds,
}
use see_size.Script.Files.{run_checked, unlink}
use see_size.Setup.{root}
use see_size.Setup.Replace.{marker}
use see_size.Setup.Update.{
  property, stop_service, start_service, verify_running, restore, roll_back,
}
use see_size.Setup.Update.Slots.{
  Root, Present, Work, Saved, LeavesRoot, Root-Keeps, Folder-Keeps, Saved-Keeps, Present-Keeps,
}
use see_size.Setup.Update.Install.{Kit, Ready, install_from-Triple}

-- The three ways in which an update can leave the installed files: all old, all new, or some of
-- each with all old ones saved in a workspace that is marked to stay.
pub data Recoverable (old new : String → Bytes) (w : World) : Type 0 where
  unchanged : Root old w → Recoverable old new w
  updated : Root new w → Recoverable old new w
  kept : (s : String) (mark : Bytes) → Saved s old mark w → Present w → Recoverable old new w

module _ (m : Machine) (calm : Undisturbed m root) where
  pub run_checked-LeavesRoot : (args : List String) → LeavesRoot (run_checked m args)
  run_checked-LeavesRoot args = record {
    at = λ q b i. run_checked-Keeps m (Holds q b) (λ a. spawn-Holds m q root calm i a) args;
  }

  pub property-LeavesRoot : (p : String) → LeavesRoot (property m p)
  unfolding property
  property-LeavesRoot p = run_checked-LeavesRoot _

  pub stop_service-LeavesRoot : LeavesRoot (stop_service m)
  unfolding stop_service
  stop_service-LeavesRoot = run_checked-LeavesRoot _

  pub start_service-LeavesRoot : LeavesRoot (start_service m)
  unfolding start_service
  start_service-LeavesRoot = run_checked-LeavesRoot _

  pub verify_running-LeavesRoot :
      (expected : List String) (hashes : List (FilePath × String))
      → LeavesRoot (verify_running m expected hashes)
  unfolding verify_running
  verify_running-LeavesRoot expected hashes = record {
    at = λ q b i.
        Triple-bind (run_status-Keeps m (Holds q b) (λ a. spawn-Holds m q root calm i a) _) λ code.
          Triple-bind (Keeps-raise_if _ _) λ _.
            Triple-bind ((property-LeavesRoot "ActiveState").at q b i) λ state.
              Triple-bind (Keeps-raise_if _ _) λ _.
                Triple-each (λ _. Holds q b)
                  (λ x xs.
                    Triple-bind
                      (Triple-weaken (λ w k. k) (λ _ w k. k.0) (λ _ w k. k) (read_lem m x.0))
                      λ body. Keeps-raise_if _ _)
                  hashes;
  }

  pub Kit-Keeps :
      (s d : String) (c old : String → Bytes) (mark : Bytes) {A : Type 0} {act : Action A}
      → LeavesRoot act
      → Keeps (Kit m s d c old mark) act
  Kit-Keeps s d c old mark l =
      Triple-weaken (λ w k. ((k.0, k.1), k.2)) (λ a w k. (k.0.0, k.0.1, k.1))
        (λ e w k. (k.0.0, k.0.1, k.1))
        (Keeps-and (Keeps-and (Folder-Keeps l s d c) (Saved-Keeps l s old mark)) (Present-Keeps l))

  pub Ready-Keeps :
      (s d : String) (c old : String → Bytes) (mark : Bytes) {A : Type 0} {act : Action A}
      → LeavesRoot act
      → Keeps (Ready m s d c old mark) act
  Ready-Keeps s d c old mark l = Keeps-and (Kit-Keeps s d c old mark l) (Root-Keeps l c)

  -- Removing the mark touches no installed file.
  pub unlink-marker-Root :
      (s : String) (c : String → Bytes) → Keeps (Root c) (unlink m (marker (Work s)))
  unlink-marker-Root s c = Keeps-all _ λ n. Keeps-all _ λ i.
      unlink-Holds m (root // n) (marker (Work s))
        (λ e. omega (arith, ap (λ (p : FilePath). length p) e))

  module _ (s : String) (old new : String → Bytes) (mark : Bytes) (verify : Action (Unit {0}))
      (leaves : LeavesRoot verify) where
    abbrev Back : World → Type 0
    Back = Kit m s "previous" old old mark

    abbrev BackReady : World → Type 0
    BackReady = Ready m s "previous" old old mark

    Back-kept : (w : World) → Back w → Recoverable old new w
    Back-kept w k = kept s mark k.1 k.2

    back :
        {A : Type 0} {act : Action A} {Q : A → World → Type 0} {P : World → Type 0}
        → Triple P act Q (λ _. Back)
        → Triple P act Q (λ _. Recoverable old new)
    back t = Triple-weaken (λ w k. k) (λ a w k. k) (λ e w k. Back-kept w k) t

    rolled :
        {A : Type 0} {act : Action A} {P : World → Type 0}
        → Triple P act (λ _. BackReady) (λ _. BackReady)
        → Triple P act (λ _. BackReady) (λ _. Recoverable old new)
    rolled t = Triple-weaken (λ w k. k) (λ a w k. k) (λ e w k. unchanged k.1) t

    -- The roll back never returns. Once it has put every old file back, nothing later undoes that.
    roll_back-Triple :
        Triple Back (roll_back m (Work s) verify) (λ _ w. ⊥) (λ _. Recoverable old new)
    unfolding roll_back
    roll_back-Triple =
        Triple-bind (back (Kit-Keeps s "previous" old old mark stop_service-LeavesRoot)) λ _.
          Triple-bind (back (install_from-Triple m s "previous" old old mark)) λ _.
            Triple-bind (rolled (Ready-Keeps s "previous" old old mark start_service-LeavesRoot))
              λ _.
                Triple-bind
                  (rolled (
                    Triple-catch (Ready-Keeps s "previous" old old mark leaves)
                      (λ e. Keeps-raise _)))
                  λ _.
                    Triple-bind
                      (Triple-weaken (λ w k. k.1) (λ _ w k. k) (λ _ w k. unchanged k)
                        (unlink-marker-Root s old))
                      λ _. Triple-raise _ (λ w k. unchanged k)

    pub restore-Triple :
        (e : Exc) → Triple Back (restore m (Work s) verify e) (λ _ w. ⊥) (λ _. Recoverable old new)
    unfolding restore
    restore-Triple (system_exit x) = Triple-raise _ Back-kept
    restore-Triple (value_error x) = roll_back-Triple
    restore-Triple _ = roll_back-Triple
