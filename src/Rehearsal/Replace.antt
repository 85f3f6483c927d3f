-- ===== src/Rehearsal/Replace.antt =====
-- An exchange where no change of a file fails: the staging file is gone after it.
use see_size.Base.{
  ℕ, String, ◌≡◌, ◌≢◌, refl, sym, ◌∙◌, ap, list_eq, string_eq, ◌==◌, true, not, ◌||◌, none, some,
  arith, subst,
}
use see_size.Base.Dict.{lookup}
use see_size.Fs.{FilePath, Bytes, Fs, content_at, exists, is_symlink, move_file}
use see_size.Fs.Laws.{
  content_at-content, content_at_agree, missing-exists, content-put_file, lookup-move_file_source,
}
use see_size.Script.{Machine, World, runtime_error, ◌>>=◌, ◌>>◌, raise_if}
use see_size.Script.Files.{write, copy_file, chmod, rename}
use see_size.Script.Rules.{
  Triple, Keeps, Triple-bind, Triple-weaken, Triple-and, Triple-given, Triple-raise_if, Triple-pure,
  Keeps-all, Triple-at, Triple-some,
}
use see_size.Script.Frame.{Holds, read_lem, guarded_lem, change_lem}
use see_size.Script.Frame.Sure.{Fine, write_sure, chmod_sure, rename_sure, read_at_sure}
use see_size.Script.Frame.Nodes.{write-NodeAt, chmod-NodeAt}
use see_size.Setup.Cache.Slots.{refuse-Keeps}
use see_size.Setup.Cache.{refuse}
use see_size.Rollout.{binary}
use see_size.Rehearsal.{Vm, lab, next_of, digest, replace}

-- Nothing stands there.
abbrev pub Free : FilePath → World → Type 0
Free p w = lookup p w.fs ≡ none

-- A regular file stands there.
abbrev pub Regular : FilePath → World → Type 0
Regular p w = (b : Bytes) × Holds p b w

-- Every other path is as it was.
abbrev Beside : FilePath → Fs → World → Type 0
Beside t fs w = (x : (r : FilePath) × (r ≢ t)) → lookup x.0 w.fs ≡ lookup x.0 fs

module _ (m : Machine) (vm : Vm) (fine : Fine m) where
  module _ (t : FilePath) (fs : Fs) where
    write-Beside : (body : Bytes) (mode : ℕ) → Keeps (Beside t fs) (write m t body mode)
    write-Beside body mode =
        Keeps-all (λ (x : (r : FilePath) × (r ≢ t)) w. lookup x.0 w.fs ≡ lookup x.0 fs)
          (λ x. write-NodeAt m x.0 (λ o. o ≡ lookup x.0 fs) t body mode x.1)

    chmod-Beside : (mode : ℕ) → Keeps (Beside t fs) (chmod m t mode)
    chmod-Beside mode =
        Keeps-all (λ (x : (r : FilePath) × (r ≢ t)) w. lookup x.0 w.fs ≡ lookup x.0 fs)
          (λ x. chmod-NodeAt m x.0 (λ o. o ≡ lookup x.0 fs) t mode x.1)

  -- The staging file is taken away by the exchange.
  rename-Free :
      (t p : FilePath) {P : World → Type 0}
      → t ≢ p
      → Triple P (rename m t p) (λ _. Free t) (λ _ w. Unit)
  unfolding rename
  rename-Free t p apart =
      guarded_lem m _ (λ w k. tt)
        (change_lem m (move_file t p) (λ w k. lookup-move_file_source t p w.fs apart) (λ w k. tt))

  module _ (src t p : FilePath) (apart : p ≢ t) (w : World) (free : Free t w) {old : Bytes}
      (there : Holds p old w) where
    -- The copy is made, and all else is as it was.
    Staged : Bytes → World → Type 0
    Staged body v = Holds t body v × Beside t w.fs v

    written :
        (body : Bytes) → Triple (λ v. v ≡ w) (write m t body 0o644) (λ _. Staged body) (λ _ v. ⊥)
    unfolding Staged
    written body =
        Triple-weaken
          (λ v k. (tt, λ x. subst (λ (u : World). lookup x.0 u.fs ≡ lookup x.0 w.fs) (sym k) refl))
          (λ _ v k. k) (λ _ v k. k.0)
          (Triple-and
            (write_sure m fine t body 0o644 {P = λ v. Unit {0}} {Q = Holds t body}
              (λ v now k. content-put_file t body m.euid 0o644 now v.fs))
            (write-Beside t w.fs body 0o644))

    copied :
        Triple
          (λ v. v ≡ w)
          (copy_file m src t)
          (λ _ v. (body : Bytes) × (Staged body v × (content_at w.fs src ≡ some body)))
          (λ _ v. v ≡ w)
    unfolding copy_file Staged
    copied =
        Triple-bind
          (Triple-weaken {Q' = λ body v. (v ≡ w) × (content_at v.fs src ≡ some body)} (λ v k. k)
            (λ body v k. (k.0, subst (λ (u : World). content_at u.fs src ≡ some body) k.0 k.1))
            (λ _ v k. k) (read_lem m src))
          λ body. Triple-given λ known.
            Triple-weaken (λ v k. k) (λ _ v k. (body, (k, known))) (λ _ v k. absurd k)
              (written body)

    same_content : (v : World) → Beside t w.fs v → Holds p old v
    same_content v k = ground (arith, there, k (p, apart))

    -- Both hashes are that of the copied bytes.
    hashed :
        (body : Bytes)
        → content_at w.fs src ≡ some body
        → Triple
            (Staged body)
            (do
              chmod m t 0o700
              copied ← digest m vm t
              wanted ← digest m vm src
              raise_if (not (copied == wanted)) (runtime_error "Copy mismatch")
              rename m t p)
            (λ _ v. Holds p body v × Free t v)
            (λ _ v. ⊥)
    unfolding Staged digest
    hashed body known =
        Triple-bind
          (Triple-weaken (λ v k. k) (λ _ v k. k) (λ _ v k. absurd k.0)
            (Triple-and (chmod_sure m fine t t 0o700) (chmod-Beside t w.fs 0o700)))
          λ _.
            Triple-bind {Q = λ h v. Staged body v × (h ≡ m.sha256 body)}
              (Triple-bind
                (Triple-weaken {P' = λ v. Staged body v × (content_at v.fs t ≡ some body)}
                  (λ v k. (k, content_at-content t v.fs k.0)) (λ _ v k. k) (λ _ v k. absurd k)
                  (read_at_sure m t))
                λ x. Triple-given λ is. Triple-pure (m.sha256 x) (λ v k. (k, ap m.sha256 is)))
              λ copied. Triple-given λ first.
                Triple-bind {Q = λ h v. Staged body v × (h ≡ m.sha256 body)}
                  (Triple-bind
                    (Triple-weaken {P' = λ v. Staged body v × (content_at v.fs src ≡ some body)}
                      (λ v k. (
                        k,
                        content_at_agree w.fs v.fs t src free (λ r other. k.1 (r, other)) known,
                      ))
                      (λ _ v k. k) (λ _ v k. absurd k) (read_at_sure m src))
                    λ x. Triple-given λ is. Triple-pure (m.sha256 x) (λ v k. (k, ap m.sha256 is)))
                  λ wanted. Triple-given λ second.
                    Triple-bind
                      (Triple-raise_if (not (copied == wanted)) _ {Q = λ _. Staged body}
                        (λ v k bad. absurd (ground (arith, bad, first, second))) (λ v k _. k))
                      λ _.
                        Triple-weaken (λ v k. ((k.0, same_content v k.1), tt)) (λ _ v k. k)
                          (λ _ v k. absurd k.0)
                          (Triple-and (rename_sure m fine t p)
                            (rename-Free t p {P = λ v. Unit {0}} (λ e. apart (sym e))))

  -- An exchange that finds the staging place free leaves it free, and a regular program.
  pub replace_clean :
      (c : String) (folder : FilePath)
      → binary lab c ≢ next_of c
      → Keeps (λ w. Regular (binary lab c) w × Free (next_of c) w) (replace m vm c folder)
  unfolding replace
  replace_clean c folder apart = Triple-bind (refuse-Keeps _ _ _) λ _. Triple-at λ w k.
      let t = next_of c in
      let p = binary lab c in
      let src = binary folder c in
      Triple-bind
        (Triple-weaken (λ v h. h) (λ _ v h. h)
          (λ _ v h. subst (λ (u : World). Regular p u × Free t u) (sym h) k)
          (copied src t p apart w k.1 k.0.1))
        λ _. Triple-some λ body. Triple-given λ known.
          Triple-weaken (λ v h. h) (λ _ v h. ((body, h.0), h.1)) (λ _ v h. absurd h)
            (hashed src t p apart w k.1 k.0.1 body known)

  -- A free place is no staging file.
  unstaged :
      (t : FilePath) (w : World)
      → Free t w
      → Triple
          (λ v. v ≡ w)
          (refuse (λ fs. exists fs t || is_symlink fs t) (runtime_error "Staging exists"))
          (λ _ v. v ≡ w)
          (λ _ v. ⊥)
  unstaged t w free = record {
    run = λ v at.
        (Triple-raise_if {P = λ u. u ≡ v} (exists v.fs t || is_symlink v.fs t) _ {Q = λ _ u. u ≡ w}
            (λ u same bad. taken v at bad) (λ u same _. same ∙ at)).run
          v refl;
  }
    where
      taken : (v : World) → v ≡ w → (exists v.fs t || is_symlink v.fs t) ≡ true → ⊥
      taken v at bad =
          let gone : lookup t v.fs ≡ none = subst (λ (u : World). Free t u) (sym at) free in
          ground (arith, bad, gone, missing-exists t v.fs gone)

  -- With a regular file as its source, it ends with that file's bytes.
  pub replace_sure :
      (c : String) (folder : FilePath) (b : Bytes)
      → binary lab c ≢ next_of c
      → Triple
          (λ w. (Regular (binary lab c) w × Free (next_of c) w) × Holds (binary folder c) b w)
          (replace m vm c folder)
          (λ _. Holds (binary lab c) b)
          (λ _ w. ⊥)
  unfolding replace copy_file
  replace_sure c folder b apart = Triple-at λ w k.
      let t = next_of c in
      let p = binary lab c in
      let src = binary folder c in
      Triple-bind {Q = λ _ v. v ≡ w} (unstaged t w k.0.1) λ _.
        Triple-bind
          (Triple-bind {Q = λ x v. (v ≡ w) × (x ≡ b)}
            (Triple-weaken
              (λ v h. (
                h,
                subst (λ (u : World). content_at u.fs src ≡ some b) (sym h)
                    (content_at-content src w.fs k.1),
              ))
              (λ _ v h. h) (λ _ v h. h) (read_at_sure m src))
            λ x. Triple-given λ is. rw is (written src t p apart w k.0.1 k.0.0.1 b))
          λ _.
            Triple-weaken (λ v h. h) (λ _ v h. h.0) (λ _ v h. h)
              (hashed src t p apart w k.0.1 k.0.0.1 b (content_at-content src w.fs k.1))
