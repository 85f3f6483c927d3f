-- ===== src/Setup/Update/Switch.antt =====
-- The switch to the new package.
use see_size.Base.{
  String, nat_eq, string_eq, list_eq, ◌≡◌, ◌≢◌, ap, subst, false, not, ◌&&◌, List, arith, length,
  is_some,
}
use see_size.Base.Text.{codes}
use see_size.Fs.{FilePath, ◌//◌, Bytes, under, exists, is_symlink, move_tree, vacant}
use see_size.Base.Dict.{lookup}
use see_size.Fs.Laws.{under_cons, under_short, lookup-move_tree_child}
use see_size.Script.{Machine, World, Action, ◌>>◌, catch}
use see_size.Script.Rules.{
  Outcome, Triple, Keeps, Keeps-and, Triple-and, Triple-weaken, Keeps-all, Triple-bind,
  Triple-catch, Outcome-if, Keeps-raise_if,
}
use see_size.Script.Frame.{write_done, change_lem, guarded_lem}
use see_size.Script.Frame.Keep.{
  Undisturbed, unlink-Holds, rmtree-Holds, rename_folder-Holds, write-Holds,
}
use see_size.Script.Files.{unlink, rename_folder, write}
use see_size.Setup.{root, package_files}
use see_size.Setup.Replace.{marker, validate_rollback}
use see_size.Setup.Update.{
  candidate_of, previous_of, rollback, start_service, install_from, restore, remove_rollback,
  switch,
}
use see_size.Setup.Update.Slots.{InPackage, Root, Folder, Work, LeavesRoot}
use see_size.Setup.Update.Install.{Kit, Ready, install_from-Triple}
use see_size.Setup.Update.Rollback.{
  Recoverable, unchanged, updated, kept, stop_service-LeavesRoot, start_service-LeavesRoot,
  Kit-Keeps, Ready-Keeps, unlink-marker-Root, restore-Triple,
}

-- A query of the rollback folder changes nothing.
pub validate_rollback-Keeps :
    {I : World → Type 0} (p : FilePath) (names : List String) → Keeps I (validate_rollback p names)
unfolding validate_rollback
validate_rollback-Keeps p names = record {
  run = λ w k.
      Outcome-if _ _ (not (exists w.fs p) && not (is_symlink w.fs p)) _ _ (λ _. k)
        (λ _.
          (Triple-bind (Keeps-raise_if _ _)
              λ _. Triple-bind (Keeps-raise_if _ _) λ _. Keeps-raise_if _ _).run
            w k);
}

InPackage-ne_rollback : (n : String) → InPackage n → n ≢ "rollback"
unfolding string_eq
InPackage-ne_rollback n i e = cc (subst InPackage e i)

module _ (m : Machine) (s : String) (apart : s ≢ "rollback") where
  rollback-ne_work : rollback ≢ Work s
  rollback-ne_work e = apart (ground arith)

  outside_root : (n : String) → InPackage n → under rollback (root // n) ≡ false
  outside_root n i =
      let ne = InPackage-ne_rollback n i in
      under_cons rollback root n (λ e. ne (ground arith)) (under_short rollback root (omega arith))

  outside_previous : (n : String) → under rollback (previous_of (Work s) // n) ≡ false
  outside_previous n =
      under_cons rollback _ n (λ e. omega (arith, ap (λ (p : FilePath). length p) e))
        (under_cons rollback _ _ (λ e. omega (arith, ap (λ (p : FilePath). length p) e))
          (under_cons rollback _ s rollback-ne_work (under_short rollback root (omega arith))))

  remove_rollback-Keeps :
      (old new : String → Bytes)
      → Keeps (λ w. Root new w × Folder (previous_of (Work s)) old w) (remove_rollback m)
  unfolding remove_rollback
  remove_rollback-Keeps old new = record {
    run = λ w k.
        Outcome-if _ _ (exists w.fs rollback) _ _
          (λ _.
            (Keeps-and
                (Keeps-all _
                  λ n. Keeps-all _ λ i. rmtree-Holds m (root // n) rollback (outside_root n i))
                (Keeps-all _ λ n. Keeps-all _ λ i.
                  rmtree-Holds m (previous_of (Work s) // n) rollback (outside_previous n))).run
              w k)
          (λ _. k);
  }

  moved :
      (old : String → Bytes)
      → Triple
          (Folder (previous_of (Work s)) old)
          (rename_folder m (previous_of (Work s)) rollback)
          (λ _. Folder rollback old)
          (λ _ w. Unit)
  unfolding rename_folder
  moved old =
      let p = previous_of (Work s) in
      guarded_lem m (λ fs. is_some (lookup p fs) && vacant rollback fs) (λ w k. tt)
        (change_lem m (move_tree p rollback)
          (λ w k n i. rw (lookup-move_tree_child p rollback n w.fs (ground arith)) (k.0 n i))
          (λ w k. tt))

  -- The saved files become the rollback package.
  rename_previous-Triple :
      (old new : String → Bytes)
      → Triple
          (λ w. Root new w × Folder (previous_of (Work s)) old w)
          (rename_folder m (previous_of (Work s)) rollback)
          (λ _ w. Root new w × Folder rollback old w)
          (λ _. Root new)
  rename_previous-Triple old new =
      Triple-weaken (λ w k. k) (λ _ w k. k) (λ _ w k. k.0)
        (Triple-and
          (Keeps-all _ λ n. Keeps-all _ λ i.
            rename_folder-Holds m (root // n) _ rollback (under_short _ (root // n) (omega arith))
              (outside_root n i))
          (moved old))

  unlink-marker-rollback :
      (old : String → Bytes) → Keeps (Folder rollback old) (unlink m (marker (Work s)))
  unlink-marker-rollback old = Keeps-all _ λ n.
      Keeps-all _ λ i. unlink-Holds m (rollback // n) (marker (Work s)) (λ e. apart (ground arith))

  -- From the marker on: the whole new package with the old one as the rollback, or a state from
  -- which the old package can be had back.
  module _ (calm : Undisturbed m root) (old new : String → Bytes) (verify : Action (Unit {0}))
      (leaves : LeavesRoot verify) where
    abbrev mark : Bytes
    mark = codes "Keep previous/ until successful update or verified rollback.\n"

    abbrev Forward : World → Type 0
    Forward = Kit m s "candidate" new old mark

    abbrev ForwardReady : World → Type 0
    ForwardReady = Ready m s "candidate" new old mark

    abbrev Start : World → Type 0
    Start w =
        Root old w × Folder (previous_of (Work s)) old w × Folder (candidate_of (Work s)) new w

    write-marker_lem :
        Triple Start
          (write m (marker (Work s)) mark 0o644)
          (λ _. Forward)
          (λ _. Recoverable old new)
    write-marker_lem =
        Triple-weaken (λ w k. ((tt, k.0), (k.1, k.2)))
          (λ _ w k. (k.1.1, record { previous = k.1.0; marked = k.0.0 }, λ n i. (old n, k.0.1 n i)))
          (λ _ w k. unchanged k.0.1)
          (Triple-and
            (Triple-and (write_done m (marker (Work s)) mark 0o644) (
              Keeps-all _ λ n. Keeps-all _ λ i.
                write-Holds m (root // n) _ mark 0o644
                  (λ e. omega (arith, ap (λ (p : FilePath). length p) e))))
            (Keeps-and (beside "previous" old) (beside "candidate" new)))
      where
        beside :
            (d : String) (c : String → Bytes)
            → Keeps (Folder (Work s // d) c) (write m (marker (Work s)) mark 0o644)
        beside d c = Keeps-all _ λ n. Keeps-all _ λ i.
            write-Holds m (Work s // d // n) _ mark 0o644
              (λ e. omega (arith, ap (λ (p : FilePath). length p) e))

    forward :
        {A : Type 0} {act : Action A} {Q : A → World → Type 0} {P : World → Type 0}
        → Triple P act Q (λ _. ForwardReady)
        → Triple P act Q (λ _. Forward)
    forward t = Triple-weaken (λ w k. k) (λ a w k. k) (λ e w k. k.0) t

    try_lem :
        Triple Forward
          (catch
            (do install_from m (candidate_of (Work s)); start_service m; verify)
            (restore m (Work s) verify))
          (λ _. ForwardReady)
          (λ _. Recoverable old new)
    try_lem =
        Triple-catch
          (Triple-bind (install_from-Triple m s "candidate" new old mark) λ _.
            Triple-bind
              (forward
                (Ready-Keeps m calm s "candidate" new old mark (start_service-LeavesRoot m calm)))
              λ _. forward (Ready-Keeps m calm s "candidate" new old mark leaves))
          λ e.
            Triple-weaken (λ w k. (k.1.previous, k.1, k.2)) (λ _ w k. absurd k) (λ _ w k. k)
              (restore-Triple m calm s old new mark verify leaves e)

    pub switch-Triple :
        Triple Start
          (switch m (Work s) verify)
          (λ _ w. Root new w × Folder rollback old w)
          (λ _. Recoverable old new)
    unfolding switch
    switch-Triple = Triple-bind write-marker_lem λ _.
        Triple-bind
          (Triple-weaken (λ w k. k) (λ _ w k. k) (λ _ w k. kept s mark k.1 k.2)
            (Kit-Keeps m calm s "candidate" new old mark (stop_service-LeavesRoot m calm)))
          λ _. Triple-bind try_lem λ _.
            Triple-bind
              (Triple-weaken (λ w k. (k.1, k.0.1.previous)) (λ _ w k. k) (λ _ w k. updated k.0)
                (validate_rollback-Keeps rollback package_files))
              λ _.
                Triple-bind
                  (Triple-weaken (λ w k. k) (λ _ w k. k) (λ _ w k. updated k.0)
                    (remove_rollback-Keeps old new))
                  λ _.
                    Triple-bind
                      (Triple-weaken (λ w k. k) (λ _ w k. k) (λ _ w k. updated k)
                        (rename_previous-Triple old new))
                      λ _.
                        Triple-weaken (λ w k. k) (λ _ w k. k) (λ _ w k. updated k.0)
                          (Keeps-and (unlink-marker-Root m calm s new) (unlink-marker-rollback old))

-- From a workspace with the old package saved and a new one staged, `switch` returns only with all
-- new files installed and all old ones in the rollback folder. If any call fails or is interrupted,
-- the installed files are all old, or all new, or each is there and the old ones are saved in a
-- workspace that is marked to stay. The workspace is not called `rollback`; neither commands nor
-- the verification write below the installation folder.
pub switch_lem :
    (m : Machine) (s : String) (old new : String → Bytes) (verify : Action (Unit {0})) (w : World)
    → s ≢ "rollback"
    → Undisturbed m root
    → LeavesRoot verify
    → Root old w
    → Folder (previous_of (Work s)) old w
    → Folder (candidate_of (Work s)) new w
    → Outcome
        (λ _ v. Root new v × Folder rollback old v)
        (λ _. Recoverable old new)
        (switch m (Work s) verify w)
switch_lem m s old new verify w apart calm leaves k saved staged =
    (switch-Triple m s apart calm old new verify leaves).run w (k, saved, staged)
