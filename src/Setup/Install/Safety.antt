-- ===== src/Setup/Install/Safety.antt =====
-- `install` takes nothing over: what is there already stops it before it changes anything.
use see_size.Base.{String, ◌≡◌, refl, Bool, true, false, ◌||◌, Option, List, [], ◌∷◌, arith, nat_eq}
use see_size.Fs.{FilePath, Fs, exists, is_symlink}
use see_size.Script.{Machine, World, Exc, Action}
use see_size.Script.Rules.{
  Triple-never, Outcome, Triple, Keeps, Triple-bind, Triple-each, Triple-raise_if, Triple-weaken,
  Keeps-raise_if,
}
use see_size.Setup.{root, data_folder, unit}
use see_size.Setup.Cache.{refuse}
use see_size.Setup.Update.Inspect.{preflight-Keeps}
use see_size.Setup.Install.{refuse_existing, install}

-- One of the paths leads somewhere, or is a link.
unfoldable pub any_taken : Fs → List FilePath → Bool
any_taken fs [] = false
any_taken fs (p ∷ ps) = exists fs p || is_symlink fs p || any_taken fs ps

-- `(ROOT, DATA, UNIT)`
abbrev pub paths : List FilePath
paths = root ∷ data_folder ∷ unit ∷ []

module _ (m : Machine) (w : World) where
  abbrev Unchanged : World → Type 0
  Unchanged v = (v.fs ≡ w.fs) × (v.commands ≡ w.commands)

  abbrev Left : List FilePath → World → Type 0
  Left ps v = Unchanged v × (any_taken w.fs ps ≡ true)

  -- A path that is free leaves the taken one among the others.
  refuse_taken :
      (p : FilePath) (ps : List FilePath) (e : Exc)
      → Triple
          (Left (p ∷ ps))
          (refuse (λ fs. exists fs p || is_symlink fs p) e)
          (λ _. Left ps)
          (λ _. Unchanged)
  unfolding any_taken
  refuse_taken p ps e = record {
    run = λ v k.
        (Triple-raise_if {P = λ u. u ≡ v} (exists v.fs p || is_symlink v.fs p) e {Q = λ _. Left ps}
            (λ u h _. rw h k.0) (λ u h free. rw h (k.0, next v k free))).run
          v refl;
  }
    where
      next :
          (v : World)
          → Left (p ∷ ps) v
          → (exists v.fs p || is_symlink v.fs p) ≡ false
          → any_taken w.fs ps ≡ true
      next v k free =
          let free_there : (exists w.fs p || is_symlink w.fs p) ≡ false = rw (← k.0.0) free in
          let split : (exists w.fs p || is_symlink w.fs p || any_taken w.fs ps) ≡ true = k.1 in
          ground arith

  soften :
      {A : Type 0} {a : Action A} (ps : List FilePath)
      → Keeps (Left ps) a
      → Triple (Left ps) a (λ _. Left ps) (λ _. Unchanged)
  soften ps t = Triple-weaken (λ v k. k) (λ _ v k. k) (λ _ v k. k.0) t

  none-Left :
      {A : Type 0} {a : Action A} {Q : A → World → Type 0} {E : Exc → World → Type 0}
      → Triple (Left []) a Q E
  unfolding any_taken
  none-Left = record { run = λ v k. absurd (ground arith) }

  -- An installation where one of the package's folder, the data folder and the unit is there
  -- already fails, with all files as they were and no command run.
  pub install_refused :
      (requested : String) (bundle : Option FilePath)
      → any_taken w.fs paths ≡ true
      → Outcome
          (λ _ v. ⊥)
          (λ _ v. (v.fs ≡ w.fs) × (v.commands ≡ w.commands))
          (install m requested bundle w)
  unfolding install refuse_existing any_taken
  install_refused requested bundle taken =
      (Triple-bind
          (Triple-bind (soften paths (preflight-Keeps m)) λ _.
            Triple-bind (soften paths (Keeps-raise_if _ _)) λ _.
              Triple-bind (Triple-each Left (λ p ps. refuse_taken p ps _) paths) λ _. none-Left)
          λ _. Triple-never).run
        w ((refl, refl), taken)
