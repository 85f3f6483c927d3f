-- ===== src/Script/Frame.antt =====
-- What the calls do to one regular file: they leave it alone unless it is the one they name.
pub mod Keep
pub mod Sure
pub mod Nodes
use see_size.Base.{
  ℕ, ◌<>◌, String, ◌≡◌, refl, ◌≢◌, sym, list_eq, string_eq, Bool, true, false, Option, none, some,
  ◌∷◌, arith, if◌then◌else◌, is_some, Option-cases, Bool-cases, inl, inr, List,
}
use see_size.Base.Dict.{lookup, insert, erase, lookup-insert}
use see_size.Fs.{
  FilePath, ◌//◌, Bytes, Node, Fs, content, content_at, stat, under, remove_tree, put_file,
  set_mode, move_file, move_tree,
}
use see_size.Fs.Laws.{
  content_at-content, lookup-put_file_ne, content-put_file, content-set_mode, lookup-remove_tree,
  lookup-erase, content-move_file, lookup-move_file_ne, lookup-move_tree_ne,
}
use see_size.Script.{
  Exc, os_error, Fate, fine, fails, Machine, World, Result, ok, err, Action, ◌>>=◌,
}
use see_size.Script.Files.{
  ticked, change, write, read, copy_file, chmod, unlink, unlink_if_there, rename, rename_folder,
  mkdir, make_temp_folder, make_temp_file, rmtree, spawn, run_checked, run_status, read_line,
  stat_of,
}
use see_size.Script.Rules.{Outcome, Triple, Keeps, Triple-bind, Triple-weaken}

-- A regular file with these bytes stands at the path.
abbrev pub Holds : FilePath → Bytes → World → Type 0
Holds q b w = content w.fs q ≡ some b

module _ (m : Machine) where
  -- A change that either happens or does not.
  pub change_lem :
      (f : Fs → Fs) {P Q E : World → Type 0}
      → ((w : World) → P w → Q (ticked m w (f w.fs)))
      → ((w : World) → P w → E (ticked m w w.fs))
      → Triple P (change m f) (λ _. Q) (λ _. E)
  unfolding change
  change_lem f {P} {Q} {E} hq he = record { run = λ w p. go w p (m.fate w.tick) }
    where
      go :
          (w : World)
          → P w
          → (t : Fate)
          → Outcome {A = Unit}
              (λ _. Q)
              (λ _. E)
              (elim t [
                | fine ↦ (ok tt, ticked m w (f w.fs))
                | fails e part ↦ (err e, ticked m w w.fs)
              ])
      go w p fine = hq w p
      go w p (fails e part) = he w p

  -- A write may also leave a part of the bytes.
  pub write_lem :
      (p : FilePath) (body : Bytes) (mode : ℕ) {P Q E : World → Type 0}
      → ((w : World) (now : ℕ) → P w → Q (ticked m w (put_file p body m.euid mode now w.fs)))
      → ((w : World) → P w → E (ticked m w w.fs))
      → ((w : World) (part : Bytes) (now : ℕ)
          → P w
          → E (ticked m w (put_file p part m.euid mode now w.fs)))
      → Triple P (write m p body mode) (λ _. Q) (λ _. E)
  unfolding write
  write_lem p body mode {P} {Q} {E} hq he hp = record { run = λ w h. go w h (m.fate w.tick) }
    where
      go :
          (w : World)
          → P w
          → (t : Fate)
          → Outcome {A = Unit}
              (λ _. Q)
              (λ _. E)
              (elim t [
                | fine ↦ (ok tt, ticked m w (put_file p body m.euid mode (m.clock w.tick) w.fs))
                | fails e none ↦ (err e, ticked m w w.fs)
                | fails e (some part) ↦
                    (err e, ticked m w (put_file p part m.euid mode (m.clock w.tick) w.fs))
              ])
      go w h fine = hq w _ h
      go w h (fails e none) = he w h
      go w h (fails e (some part)) = hp w part _ h

  -- A query of the files: the state stays, and a returned value is what the query found.
  pub read_lem :
      (p : FilePath) {P : World → Type 0}
      → Triple P (read m p) (λ b w. P w × (content_at w.fs p ≡ some b)) (λ _. P)
  unfolding read
  read_lem p {P} = record { run = λ w h. go w h (content_at w.fs p) refl }
    where
      go :
          (w : World)
          → P w
          → (o : Option Bytes) → content_at w.fs p ≡ o
          → Outcome
              (λ b w. P w × (content_at w.fs p ≡ some b))
              (λ _. P)
              (elim o [ none ↦ (err os_error, w) | some b ↦ (ok b, w) ])
      go w h none e = h
      go w h (some b) e = (h, e)

  pub read-Keeps : (p : FilePath) {P : World → Type 0} → Keeps P (read m p)
  read-Keeps p = Triple-weaken (λ w k. k) (λ _ w k. k.0) (λ _ w k. k) (read_lem p)

  pub stat_known :
      (p : FilePath) {P : World → Type 0}
      → Triple P (stat_of m p) (λ n w. P w × (stat w.fs p ≡ some n)) (λ _. P)
  unfolding stat_of
  stat_known p {P} = record { run = λ w h. go w h (stat w.fs p) refl }
    where
      go :
          (w : World)
          → P w
          → (o : Option Node) → stat w.fs p ≡ o
          → Outcome
              (λ n w. P w × (stat w.fs p ≡ some n))
              (λ _. P)
              (elim o [ none ↦ (err os_error, w) | some n ↦ (ok n, w) ])
      go w h none e = h
      go w h (some n) e = (h, e)

  pub stat_of_lem : (p : FilePath) {P : World → Type 0} → Keeps P (stat_of m p)
  stat_of_lem p = Triple-weaken (λ w k. k) (λ _ w k. k.0) (λ _ w k. k) (stat_known p)

  -- A write that returns has put the bytes there.
  pub write_done :
      (p : FilePath) (body : Bytes) (mode : ℕ)
      → Triple (λ w. Unit) (write m p body mode) (λ _. Holds p body) (λ _ w. Unit)
  write_done p body mode =
      write_lem p body mode (λ w now k. content-put_file p body m.euid mode now w.fs) (λ w k. tt)
        (λ w part now k. tt)

  pub copy_done :
      (p q : FilePath)
      → Triple (λ w. Unit) (copy_file m p q) (λ _ w. (b : Bytes) × Holds q b w) (λ _ w. Unit)
  unfolding copy_file
  copy_done p q =
      Triple-bind (read_lem p) λ body.
        Triple-weaken (λ w k. tt) (λ _ w k. (body, k)) (λ _ w k. tt) (write_done q body 0o644)

  -- What is read from a regular file is what it holds.
  pub read_known :
      (p : FilePath) {b : Bytes}
      → Triple (Holds p b) (read m p) (λ x w. Holds p b w × (x ≡ b)) (λ _ w. Unit)
  read_known p =
      Triple-weaken (λ w k. k) (λ x w k. (k.0, ground (arith, content_at-content p w.fs k.0)))
        (λ _ w k. tt) (read_lem p)

  -- Calls refused by a look at the files.
  pub guarded_lem :
      {A : Type 0} (test : Fs → Bool) {act : Action A} {P : World → Type 0} {Q : A → World → Type 0}
      {E : Exc → World → Type 0}
      → ((w : World) → P w → E os_error w)
      → Triple (λ w. P w × (test w.fs ≡ true)) act Q E
      → Triple P (λ w. if test w.fs then act w else (err os_error, w)) Q E
  guarded_lem test {act} {P} {Q} {E} he t = record { run = λ w h. go w h (test w.fs) refl }
    where
      go :
          (w : World)
          → P w
          → (b : Bool) → test w.fs ≡ b
          → Outcome Q E (if b then act w else (err os_error, w))
      go w h true e = t.run w (h, e)
      go w h false e = he w h
