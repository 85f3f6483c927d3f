-- ===== src/Setup/Update/Recovery.antt =====
-- What an update leaves behind, however it ends.
use see_size.Base.{
  String, ◌==◌, string_eq, list_eq, ◌≡◌, refl, ◌≢◌, ap, Bool, true, false, not, Option, List, [],
  ◌∷◌, arith, contains, length, if◌then◌else◌,
}
use text.Mathlib.TextEquality.{eq_iff}
use see_size.Fs.{FilePath, ◌//◌, Bytes}
use see_size.Script.{Machine, World, Action, pure, ◌>>=◌, ◌>>◌}
use see_size.Script.Rules.{
  Triple, Keeps, Keeps-and, Triple-and, Triple-weaken, Keeps-all, Triple-each_of, Triple-bind,
  Triple-given, Triple-some, Keeps-pure, Triple-pure, Triple-beside, Keeps-some, Keeps-fact,
}
use see_size.Script.Frame.{Holds, read_lem}
use see_size.Script.Frame.Keep.{Undisturbed, copy_file-Holds, read_line-Holds}
use see_size.Script.Files.{copy_file, read_line}
use see_size.Setup.{root, package_files, unit}
use see_size.Setup.Checks.Hub.{strip}
use see_size.Setup.Replace.Atomic.{copy_file-Triple}
use see_size.Setup.Update.{
  Ending, cancelled, replaced, token, rollback, candidate_of, previous_of, save, digests,
  verify_running, switch, replace_package,
}
use see_size.Setup.Update.Slots.{InPackage, Root, Present, Folder, Work, Saved}
use see_size.Setup.Update.Install.{package_members}
use see_size.Setup.Update.Stage.{IsPackage, stage-Triple}
use see_size.Setup.Update.Rollback.{
  Recoverable, unchanged, updated, kept, verify_running-LeavesRoot,
}
use see_size.Setup.Update.Switch.{switch-Triple}

-- All old files, or a whole package that passed every check, or all old files saved and marked.
pub data Safe (m : Machine) (target : String) (old : String → Bytes) (w : World) : Type 0 where
  intact : Root old w → Safe m target old w
  renewed : (new : String → Bytes) → IsPackage m target new → Root new w → Safe m target old w
  saved : (s : String) (mark : Bytes) → Saved s old mark w → Present w → Safe m target old w

-- What a run that raises nothing has done.
abbrev pub Done : Machine → String → (String → Bytes) → Ending → World → Type 0
Done m target old cancelled w = Root old w
Done m target old replaced w =
    (new : String → Bytes) × (IsPackage m target new × (Root new w × Folder rollback old w))

to_safe :
    (m : Machine) (target : String) (old new : String → Bytes) (w : World)
    → IsPackage m target new
    → Recoverable old new w
    → Safe m target old w
to_safe m target old new w p (unchanged h) = intact h
to_safe m target old new w p (updated h) = renewed new p h
to_safe m target old new w p (kept s mark h k) = saved s mark h k

module _ (m : Machine) (s : String) (old : String → Bytes) where
  abbrev SavedSoFar : List String → World → Type 0
  SavedSoFar xs w =
      Root old w
      × ((n : String)
          → InPackage n
          → contains xs n ≡ false
          → Holds (previous_of (Work s) // n) (old n) w)

  root_ne : (d n x : String) → root // n ≢ Work s // d // x
  root_ne d n x e = omega (arith, ap (λ (p : FilePath). length p) e)

  previous_ne : (n x : String) → n ≢ x → previous_of (Work s) // n ≢ previous_of (Work s) // x
  previous_ne n x h e = ground arith

  save_one :
      (x : String) (xs : List String)
      → InPackage x
      → Triple
          (SavedSoFar (x ∷ xs))
          (copy_file m (root // x) (previous_of (Work s) // x))
          (λ _. SavedSoFar xs)
          (λ _. Root old)
  save_one x xs i =
      Triple-weaken (λ w k. ((k.0, λ n j ne out. k.1 n j out), k.0 x i))
        (λ _ w k. (
          k.0.0,
          λ n j out. elim (string_eq.dec n x) [
            | yes e ↦ rw e k.1
            | no ne ↦ k.0.1 n j ne (ground arith)
          ],
        ))
        (λ _ w k. k.0)
        (Triple-beside
          {I = λ w.
            Root old w
            × ((n : String)
                → InPackage n
                → n ≢ x
                → contains (x ∷ xs) n ≡ false
                → Holds (previous_of (Work s) // n) (old n) w)}
          (Keeps-and
            (Keeps-all _
              λ n. Keeps-all _ λ j. copy_file-Holds m (root // n) _ _ (root_ne "previous" n x))
            (Keeps-all _ λ n. Keeps-all _ λ j. Keeps-all _ λ ne.
              Keeps-all _
                λ out. copy_file-Holds m (previous_of (Work s) // n) _ _ (previous_ne n x ne)))
          (copy_file-Triple m (root // x) (previous_of (Work s) // x)))

  folders_differ : ◌≢◌ {A = String} "candidate" "previous"
  folders_differ = ground (arith, eq_iff "candidate" "previous")

  staged_apart : (n x : String) → candidate_of (Work s) // n ≢ previous_of (Work s) // x
  staged_apart n x e = folders_differ (ground arith)

  -- Saving copies every old file and leaves the installed and the staged ones alone.
  save-Triple :
      (new : String → Bytes)
      → Triple
          (λ w. Root old w × Folder (candidate_of (Work s)) new w)
          (save m (Work s))
          (λ _ w.
            Root old w × Folder (previous_of (Work s)) old w × Folder (candidate_of (Work s)) new w)
          (λ _. Root old)
  unfolding save
  save-Triple new =
      Triple-weaken (λ w k. ((k.0, λ n i out. cc), k.1))
        (λ _ w k. (k.0.0, (λ n i. k.0.1 n i refl), k.1)) (λ _ w k. k)
        (Triple-each_of InPackage (λ xs w. SavedSoFar xs w × Folder (candidate_of (Work s)) new w)
          (λ x xs i.
            Triple-weaken (λ w k. k) (λ _ w k. k) (λ _ w k. k.0)
              (Triple-and (save_one x xs i) (
                Keeps-all _ λ n.
                  Keeps-all _
                    λ j. copy_file-Holds m (candidate_of (Work s) // n) _ _ (staged_apart n x))))
          package_files package_members)

  digests-Keeps : {I : World → Type 0} (ps : List FilePath) → Keeps I (digests m ps)
  unfolding digests
  digests-Keeps [] = Keeps-pure []
  digests-Keeps (p ∷ ps) =
      Triple-bind (Triple-weaken (λ w k. k) (λ _ w k. k.0) (λ _ w k. k) (read_lem m p))
        λ body. Triple-bind (digests-Keeps ps) λ rest. Keeps-pure _

  read_line-Root : (c : String → Bytes) → Keeps (Root c) (read_line m)
  read_line-Root c = Keeps-all _ λ n. Keeps-all _ λ i. read_line-Holds m (root // n)

  read_line-staged : (c : String → Bytes) → Keeps (Folder (candidate_of (Work s)) c) (read_line m)
  read_line-staged c =
      Keeps-all _ λ n. Keeps-all _ λ i. read_line-Holds m (candidate_of (Work s) // n)

  pub replace_package-Triple :
      s ≢ "rollback"
      → Undisturbed m root
      → (expected : List String) (target : String) (bundle : Option FilePath)
      → Triple
          (Root old)
          (replace_package m expected target bundle (Work s))
          (Done m target old)
          (λ _. Safe m target old)
  unfolding replace_package
  replace_package-Triple apart calm expected target bundle =
      Triple-bind (intact_if (stage-Triple m s old target bundle)) λ _.
        Triple-bind
          (intact_if (
            Triple-weaken (λ w k. (k.0, k.1)) (λ _ w k. k) (λ _ w k. k.0)
              (Triple-and (read_line-Root old) (staged_kept))))
          λ answer. confirmed (not (strip answer == "update"))
    where
      Staged : World → Type 0
      Staged w =
          (new : String → Bytes) × (Folder (candidate_of (Work s)) new w × IsPackage m target new)

      staged_kept : Keeps Staged (read_line m)
      staged_kept = Keeps-some _ λ new. Keeps-fact (read_line-staged new)

      intact_if :
          {A : Type 0} {act : Action A} {P : World → Type 0} {Q : A → World → Type 0}
          → Triple P act Q (λ _. Root old)
          → Triple P act Q (λ _. Safe m target old)
      intact_if t = Triple-weaken (λ w k. k) (λ a w k. k) (λ e w k. intact k) t

      go_on :
          (new : String → Bytes)
          → IsPackage m target new
          → Triple
              (λ w. Root old w × Folder (candidate_of (Work s)) new w)
              (do
                save m (Work s)
                hashes ← digests m (unit ∷ (root // "connection.json") ∷ token ∷ [])
                switch m (Work s) (verify_running m expected hashes)
                pure replaced)
              (Done m target old)
              (λ _. Safe m target old)
      go_on new p = Triple-bind (intact_if (save-Triple new)) λ _.
          Triple-bind
            (Triple-weaken (λ w k. k) (λ _ w k. k) (λ _ w k. intact k.0) (digests-Keeps _))
            λ hashes.
              Triple-bind
                (Triple-weaken (λ w k. k) (λ _ w k. k) (λ _ w k. to_safe m target old new w p k)
                  (switch-Triple m s apart calm old new (verify_running m expected hashes)
                    (verify_running-LeavesRoot m calm expected hashes)))
                λ _. Triple-pure replaced (λ w k. (new, (p, k)))

      confirmed :
          (b : Bool)
          → Triple
              (λ w. Root old w × Staged w)
              (if b then pure cancelled else do
                save m (Work s)
                hashes ← digests m (unit ∷ (root // "connection.json") ∷ token ∷ [])
                switch m (Work s) (verify_running m expected hashes)
                pure replaced)
              (Done m target old)
              (λ _. Safe m target old)
      confirmed true = Triple-pure cancelled (λ w k. k.0)
      confirmed false =
          Triple-weaken (λ w k. (k.1.0, ((k.0, k.1.1.0), k.1.1.1))) (λ _ w k. k) (λ _ w k. k)
            (Triple-some λ new. Triple-given λ p. go_on new p)
