-- ===== src/Script/Frame/Sure.antt =====
-- The calls on a machine on which none fails, and of commands the services' do not.
use see_size.Base.{
  some, ℕ, String, ◌≡◌, refl, ◌≢◌, list_eq, string_eq, true, not, ◌&&◌, List, ◌∷◌, nat_eq, arith,
  is_some,
}
use see_size.Base.Dict.{lookup}
use see_size.Fs.{FilePath, Bytes, Fs, content_at, is_dir, stat, put_file, set_mode, move_file}
use see_size.Fs.Laws.{
  content_at-content, lookup-put_file_ne, content-put_file, content-set_mode, content-move_file,
}
use see_size.Script.{fine, Machine, World, ok, ◌>>=◌}
use see_size.Script.Files.{
  ticked, change, read, write, copy_file, chmod, rename, spawn, run_checked,
}
use see_size.Script.Rules.{Triple, Keeps, Triple-bind, Triple-given}
use see_size.Script.Frame.{Holds}

-- No change of a file fails.
abbrev pub Fine : Machine → Type 0
Fine m = (i : ℕ) → m.fate i ≡ fine

-- No command of this program fails.
abbrev pub Succeeds : Machine → String → Type 0
Succeeds m program =
    (i : ℕ) (args : List String) (fs : Fs) → (m.shell i (program ∷ args) fs).ending ≡ ok 0

module _ (m : Machine) where
  -- A read of what is known to be there.
  pub read_at_sure :
      (p : FilePath) {b : Bytes} {I : World → Type 0}
      → Triple
          (λ w. I w × (content_at w.fs p ≡ some b))
          (read m p)
          (λ x w. I w × (x ≡ b))
          (λ _ w. ⊥)
  unfolding read
  read_at_sure p = record { run = λ w k. rw (k.1, read) (k.0, refl) }

  pub run_sure :
      (program : String) (args : List String) {I : World → Type 0}
      → Succeeds m program
      → Keeps I (spawn m (program ∷ args))
      → Triple I (run_checked m (program ∷ args)) (λ _. I) (λ _ w. ⊥)
  unfolding run_checked spawn ◌>>=◌ nat_eq native.Mathlib.Decide.ℕ_discrete
  run_sure program args {I} good calm = record {
    run = λ w k. rw (good w.tick args w.fs) (calm.run w k);
  }

  module _ (good : Fine m) where
    pub change_sure :
        (f : Fs → Fs) {P Q : World → Type 0}
        → ((w : World) → P w → Q (ticked m w (f w.fs)))
        → Triple P (change m f) (λ _. Q) (λ _ w. ⊥)
    unfolding change
    change_sure f h = record { run = λ w k. rw (good w.tick, change) (h w k) }

    pub write_sure :
        (p : FilePath) (body : Bytes) (mode : ℕ) {P Q : World → Type 0}
        → ((w : World) (now : ℕ) → P w → Q (ticked m w (put_file p body m.euid mode now w.fs)))
        → Triple P (write m p body mode) (λ _. Q) (λ _ w. ⊥)
    unfolding write
    write_sure p body mode h = record { run = λ w k. rw (good w.tick, write) (h w _ k) }

    -- A file other than the one that is written stays.
    pub write_sure_Holds :
        (q p : FilePath) (body : Bytes) (mode : ℕ) {b : Bytes}
        → q ≢ p
        → Triple (Holds q b) (write m p body mode) (λ _. Holds q b) (λ _ w. ⊥)
    write_sure_Holds q p body mode other =
        write_sure p body mode
          (λ w now k. ground (arith, lookup-put_file_ne p q body m.euid mode now w.fs other))

    pub read_sure :
        (p : FilePath) {b : Bytes}
        → Triple (Holds p b) (read m p) (λ x w. Holds p b w × (x ≡ b)) (λ _ w. ⊥)
    unfolding read
    read_sure p = record { run = λ w k. rw (content_at-content p w.fs k, read) (k, refl) }

    -- A copy returns, and its destination has the source's bytes.
    pub copy_sure :
        (p q : FilePath) {b : Bytes}
        → Triple (Holds p b) (copy_file m p q) (λ _. Holds q b) (λ _ w. ⊥)
    unfolding copy_file
    copy_sure p q {b} = Triple-bind (read_sure p) λ body. Triple-given λ same.
        write_sure q body 0o644
          (λ w now k. ground (arith, content-put_file q body m.euid 0o644 now w.fs, same))

    pub chmod_sure :
        (p q : FilePath) (mode : ℕ) {b : Bytes}
        → Triple (Holds q b) (chmod m p mode) (λ _. Holds q b) (λ _ w. ⊥)
    chmod_sure p q mode =
        change_sure (set_mode p mode) (λ w k. rw (content-set_mode p q mode w.fs) k)

    pub rename_sure :
        (p q : FilePath) {b c : Bytes}
        → Triple (λ w. Holds p b w × Holds q c w) (rename m p q) (λ _. Holds q b) (λ _ w. ⊥)
    unfolding rename stat
    rename_sure p q {b} {c} = record {
      run = λ w k. rw (ready w k) (
          (change_sure (move_file p q) {P = λ v. Holds p b v × Holds q c v} {Q = Holds q b}
              (λ v h. content-move_file p q v.fs h.0)).run
            w k);
    }
      where
        ready :
            (w : World)
            → Holds p b w × Holds q c w
            → (is_some (lookup p w.fs) && not (is_dir w.fs q)) ≡ true
        ready w k = ground arith
