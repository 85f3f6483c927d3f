-- ===== src/Setup/Update/Safety.antt =====
-- `update` as a whole: the files it leaves behind, whatever fails or interrupts it.
use see_size.Base.{
  String, ◌<>◌, string_eq, list_eq, ◌≡◌, refl, ◌≢◌, ◌⊎◌, inl, inr, ap, subst, true, false, Option,
  some, arith, length, starts_with,
}
use text.Mathlib.TextPositions.{starts_with-append}
use see_size.Base.Dict.{children}
use see_size.Fs.{FilePath, ◌//◌, Bytes, Fs, under, exists, stat, content}
use see_size.Fs.Laws.{under_cons, under_short}
use see_size.Script.{Machine, World, Action, ok, finally}
use see_size.Script.Rules.{
  Outcome, Triple, Keeps, Keeps-and, Triple-and, Triple-weaken, Keeps-all, Keeps-some, Triple-bind,
  Triple-given, Triple-some, Triple-finally, Outcome-if, lift_lem, Triple-raise_if,
}
use see_size.Script.Frame.{Holds}
use see_size.Script.Frame.Keep.{
  Undisturbed, rmtree-Holds, make_temp_folder-Holds, make_temp_folder_named,
}
use see_size.Script.Files.{make_temp_folder}
use see_size.Setup.{root}
use see_size.Setup.Replace.{marker, update_workspace, any_starts, clean_up}
use see_size.Setup.Checks.Version.{version}
use see_size.Setup.Update.{
  Ending, cancelled, replaced, rollback, previous_of, update, replace_package,
}
use see_size.Setup.Update.Inspect.{inspect-LeavesRoot}
use see_size.Setup.Update.Slots.{
  package_cases, InPackage, Root, Present, Folder, Work, Saved, Root-Keeps,
}
use see_size.Setup.Update.Stage.{IsPackage}
use see_size.Setup.Update.Recovery.{Safe, intact, renewed, saved, Done, replace_package-Triple}

exists-content : (fs : Fs) (p : FilePath) {b : Bytes} → content fs p ≡ some b → exists fs p ≡ true
unfolding stat
exists-content fs p h = ground arith

-- No file of the package is called like a workspace.
unlike_workspace : (n : String) → InPackage n → starts_with n ".update-" ≡ false
unlike_workspace = package_cases (λ n. starts_with n ".update-" ≡ false) refl refl refl refl

module _ (x : String) where
  abbrev name_of : String
  name_of = ".update-" <> x

  pub workspace_ne : (n : String) → InPackage n → n ≢ name_of
  workspace_ne n i e = ground (arith, unlike_workspace n i, starts_with-append ".update-" x)

  pub workspace-ne_rollback : name_of ≢ "rollback"
  workspace-ne_rollback e =
      cc (
        subst (λ (t : String). starts_with t ".update-" ≡ true) e (starts_with-append ".update-" x))

module _ (m : Machine) (s : String) (apart : s ≢ "rollback")
    (unlike : (n : String) → InPackage n → n ≢ s) where
  clean_up-Holds :
      (q : FilePath) {b : Bytes}
      → under (Work s) q ≡ false
      → Keeps (Holds q b) (clean_up m (Work s))
  unfolding clean_up
  clean_up-Holds q out = record {
    run = λ w k.
        Outcome-if _ _ (exists w.fs (marker (Work s))) _ _ (λ _. k)
          (λ _. (rmtree-Holds m q (Work s) out).run w k);
  }

  root_out : (n : String) → InPackage n → under (Work s) (root // n) ≡ false
  root_out n i =
      let ne = unlike n i in
      under_cons (Work s) root n (λ e. ne (ground arith)) (under_short (Work s) root (omega arith))

  deep_out : (t d n : String) → t ≢ s → under (Work s) (Work t // d // n) ≡ false
  deep_out t d n ne =
      under_cons (Work s) _ n (λ e. omega (arith, ap (λ (p : FilePath). length p) e))
        (under_cons (Work s) _ d (λ e. omega (arith, ap (λ (p : FilePath). length p) e))
          (under_cons (Work s) root t (λ e. ne (ground arith))
            (under_short (Work s) root (omega arith))))

  marker_out : (t : String) → t ≢ s → under (Work s) (marker (Work t)) ≡ false
  marker_out t ne =
      under_cons (Work s) _ _ (λ e. omega (arith, ap (λ (p : FilePath). length p) e))
        (under_cons (Work s) root t (λ e. ne (ground arith))
          (under_short (Work s) root (omega arith)))

  rollback_out : (n : String) → under (Work s) (rollback // n) ≡ false
  rollback_out n =
      under_cons (Work s) _ n (λ e. omega (arith, ap (λ (p : FilePath). length p) e))
        (under_cons (Work s) root _ (λ e. apart (ground arith))
          (under_short (Work s) root (omega arith)))

  clean_up-Root : (c : String → Bytes) → Keeps (Root c) (clean_up m (Work s))
  clean_up-Root c = Keeps-all _ λ n. Keeps-all _ λ i. clean_up-Holds (root // n) (root_out n i)

  clean_up-rollback : (c : String → Bytes) → Keeps (Folder rollback c) (clean_up m (Work s))
  clean_up-rollback c =
      Keeps-all _ λ n. Keeps-all _ λ i. clean_up-Holds (rollback // n) (rollback_out n)

  clean_up-Present : Keeps Present (clean_up m (Work s))
  clean_up-Present =
      Keeps-all _ λ n. Keeps-all _ λ i. Keeps-some _ λ b. clean_up-Holds (root // n) (root_out n i)

  -- What is marked stays, in this workspace and in any other.
  clean_up-Saved :
      (t : String) (old : String → Bytes) (mark : Bytes)
      → Keeps (λ w. Saved t old mark w × Present w) (clean_up m (Work s))
  unfolding clean_up
  clean_up-Saved t old mark = elim (string_eq.dec t s) [
    | yes e ↦ record { run = λ w k. here e w k }
    | no ne ↦
        Triple-weaken (λ w k. ((k.0.previous, k.0.marked), k.1))
          (λ _ w k. (record { previous = k.0.0; marked = k.0.1 }, k.1))
          (λ _ w k. (record { previous = k.0.0; marked = k.0.1 }, k.1))
          (Keeps-and
            (Keeps-and
              (Keeps-all _ λ n.
                Keeps-all _
                  λ i. clean_up-Holds (previous_of (Work t) // n) (deep_out t "previous" n ne))
              (clean_up-Holds (marker (Work t)) (marker_out t ne)))
            clean_up-Present)
  ]
    where
      here :
          t ≡ s
          → (w : World) → Saved t old mark w × Present w
          → Outcome {A = Unit}
              (λ _ v. Saved t old mark v × Present v)
              (λ _ v. Saved t old mark v × Present v)
              (clean_up m (Work s) w)
      here e w k =
          Outcome-if _ _ (exists w.fs (marker (Work s))) _ _ (λ _. k)
            (λ gone.
              let there = exists-content w.fs (marker (Work t)) k.0.marked in absurd (ground arith))

  clean_up-Safe :
      (target : String) (old : String → Bytes) → Keeps (Safe m target old) (clean_up m (Work s))
  clean_up-Safe target old = record { run = go }
    where
      go :
          (w : World)
          → Safe m target old w
          → Outcome {A = Unit}
              (λ _. Safe m target old)
              (λ _. Safe m target old)
              (clean_up m (Work s) w)
      go w (intact h) =
          (Triple-weaken {P = Root old} (λ v k. k) (λ _ v k. intact k) (λ _ v k. intact k)
              (clean_up-Root old)).run
            w h
      go w (renewed new p h) =
          (Triple-weaken {P = Root new} (λ v k. k) (λ _ v k. renewed new p k)
              (λ _ v k. renewed new p k) (clean_up-Root new)).run
            w h
      go w (saved t mark h k) =
          (Triple-weaken {P = λ v. Saved t old mark v × Present v} (λ v j. j)
              (λ _ v j. saved t mark j.0 j.1) (λ _ v j. saved t mark j.0 j.1)
              (clean_up-Saved t old mark)).run
            w (h, k)

  clean_up-Done :
      (target : String) (old : String → Bytes) (ending : Ending)
      → Triple
          (Done m target old ending)
          (clean_up m (Work s))
          (λ _. Done m target old ending)
          (λ _. Safe m target old)
  clean_up-Done target old cancelled =
      Triple-weaken (λ w k. k) (λ _ w k. k) (λ _ w k. intact k) (clean_up-Root old)
  clean_up-Done target old replaced = Triple-some λ new.
      Triple-weaken (λ w k. (k.1, k.0)) (λ _ w k. k) (λ _ w k. k)
        (Triple-given {F = IsPackage m target new} {P = λ w. Root new w × Folder rollback old w}
          λ p.
            Triple-weaken (λ w k. k) (λ _ w k. (new, (p, k))) (λ _ w k. renewed new p k.0)
              (Keeps-and (clean_up-Root new) (clean_up-rollback old)))

-- The workspace is new, and what it is used for decides what is left.
update_workspace-Triple :
    (m : Machine) (target : String) (old : String → Bytes) (body : FilePath → Action Ending)
    → ((s : String)
        → s ≢ "rollback"
        → Triple (Root old) (body (Work s)) (Done m target old) (λ _. Safe m target old))
    → Triple (Root old) (update_workspace m body) (Done m target old) (λ _. Safe m target old)
unfolding update_workspace
update_workspace-Triple m target old body t = record {
  run = λ w k.
      Outcome-if _ _ (any_starts ".update-" (children root w.fs)) _ _ (λ _. intact k)
        (λ _.
          (Triple-bind
              (Triple-weaken (λ v j. (j, tt)) (λ p v j. (j.1.0, (j.0, j.1.1))) (λ _ v j. intact j.0)
                (Triple-and (made) (make_temp_folder_named m root ".update-" {P = λ _. Unit})))
              (λ p.
                Triple-some {P = λ x v. Root old v × (p ≡ root // (".update-" <> x))}
                  λ x. Triple-given λ e. within p x e)).run
            w k);
}
  where
    made : Triple (Root old) (make_temp_folder m root ".update-") (λ _. Root old) (λ _. Root old)
    made = Keeps-all _ λ n. Keeps-all _ λ i.
        Triple-weaken (λ w k. k) (λ _ w k. k.0) (λ _ w k. k)
          (make_temp_folder-Holds m (root // n) root ".update-")

    within :
        (p : FilePath) (x : String)
        → p ≡ root // (".update-" <> x)
        → Triple
            (Root old)
            (finally (body p) (clean_up m p))
            (Done m target old)
            (λ _. Safe m target old)
    within p x e =
        let apart = workspace-ne_rollback x in
        let unlike = workspace_ne x in
        rw e (
          Triple-finally (t (".update-" <> x) apart)
            (λ a. clean_up-Done m (".update-" <> x) apart unlike target old a)
            (λ _. clean_up-Safe m (".update-" <> x) apart unlike target old))

-- A run that returns: the requested version was valid, and the package is as the ending says.
abbrev pub Finished : Machine → String → (String → Bytes) → Ending → World → Type 0
Finished m requested old ending w =
    (target : String) × ((version m requested ≡ ok target) × Done m target old ending w)

-- A run that raises: nothing has changed, or what is there is safe.
abbrev pub Stopped : Machine → String → (String → Bytes) → World → Type 0
Stopped m requested old w =
    Root old w ⊎ ((target : String) × ((version m requested ≡ ok target) × Safe m target old w))

update-Triple :
    (m : Machine) (requested : String) (bundle : Option FilePath) (old : String → Bytes)
    → Undisturbed m root
    → Triple
        (Root old)
        (update m requested bundle)
        (Finished m requested old)
        (λ _. Stopped m requested old)
unfolding update
update-Triple m requested bundle old calm =
    Triple-bind
      (Triple-weaken (λ w k. k) (λ _ w k. k) (λ _ w k. inl k)
        (Root-Keeps (inspect-LeavesRoot m calm) old))
      λ installed.
        Triple-bind
          (Triple-weaken (λ w k. k) (λ _ w k. k) (λ _ w k. inl k) (lift_lem (version m requested)))
          λ target. Triple-given λ valid.
            Triple-bind {Q = λ _. Root old} (Triple-raise_if _ _ (λ w k e. inl k) (λ w k e. k)) λ _.
              Triple-weaken (λ w k. k) (λ ending w k. (target, (valid, k)))
                (λ _ w k. inr (target, (valid, k)))
                (update_workspace-Triple m target old
                  (replace_package m installed.expected_args target bundle)
                  (λ s apart.
                    replace_package-Triple m s old apart calm installed.expected_args target
                      bundle))

-- Whatever call of `update` fails or is interrupted, the installed files are then all old, or a
-- whole package of the requested version that passed every check, or each is there and all old ones
-- are saved in a workspace that is marked to stay. It returns `replaced` only with a checked package
-- installed and the old one as the rollback, and `cancelled` only with the old one installed. The
-- package is installed before, and commands do not write below the installation folder.
pub update_lem :
    (m : Machine) (requested : String) (bundle : Option FilePath) (old : String → Bytes) (w : World)
    → Undisturbed m root
    → Root old w
    → Outcome
        (Finished m requested old)
        (λ _. Stopped m requested old)
        (update m requested bundle w)
update_lem m requested bundle old w calm k = (update-Triple m requested bundle old calm).run w k
