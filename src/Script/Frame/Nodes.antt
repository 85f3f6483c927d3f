-- ===== src/Script/Frame/Nodes.antt =====
-- Each call leaves alone what stands, or does not, at the paths that it does not name.
use see_size.Base.{
  ℕ, String, ◌≢◌, sym, subst, list_eq, string_eq, nat_eq, Option, List, not, ◌&&◌, is_some,
}
use see_size.Base.Dict.{lookup}
use see_size.Fs.{FilePath, Bytes, Node, is_dir, set_mode, move_file}
use see_size.Fs.Laws.{lookup-put_file_ne, lookup-set_mode_ne, lookup-move_file_ne}
use see_size.Script.{Machine, World}
use see_size.Script.Files.{write, copy_file, chmod, rename, spawn, run_checked}
use see_size.Script.Rules.{Keeps, Triple-bind}
use see_size.Script.Frame.{write_lem, change_lem, guarded_lem, read-Keeps}
use see_size.Script.Frame.Keep.{run_checked-Keeps}
use see_size.Setup.Register.Safety.{Untouched}

module _ (m : Machine) (q : FilePath) (P : Option Node → Type 0) where
  -- What is said of the path.
  abbrev pub NodeAt : World → Type 0
  NodeAt w = P (lookup q w.fs)

  pub write-NodeAt :
      (p : FilePath) (body : Bytes) (mode : ℕ) → q ≢ p → Keeps NodeAt (write m p body mode)
  write-NodeAt p body mode h =
      write_lem m p body mode
        (λ w now k. subst P (sym (lookup-put_file_ne p q body m.euid mode now w.fs h)) k) (λ w k. k)
        (λ w part now k. subst P (sym (lookup-put_file_ne p q part m.euid mode now w.fs h)) k)

  pub copy_file-NodeAt : (p r : FilePath) → q ≢ r → Keeps NodeAt (copy_file m p r)
  unfolding copy_file
  copy_file-NodeAt p r h = Triple-bind (read-Keeps m p) λ body. write-NodeAt r body 0o644 h

  pub chmod-NodeAt : (p : FilePath) (mode : ℕ) → q ≢ p → Keeps NodeAt (chmod m p mode)
  chmod-NodeAt p mode h =
      change_lem m (set_mode p mode) (λ w k. subst P (sym (lookup-set_mode_ne p q mode w.fs h)) k)
        (λ w k. k)

  pub rename-NodeAt : (p r : FilePath) → q ≢ p → q ≢ r → Keeps NodeAt (rename m p r)
  unfolding rename
  rename-NodeAt p r hp hr =
      guarded_lem m (λ fs. is_some (lookup p fs) && not (is_dir fs r)) (λ w k. k)
        (change_lem m (move_file p r)
          (λ w k. subst P (sym (lookup-move_file_ne p r q w.fs hp hr)) k.0) (λ w k. k.0))

  pub spawn-NodeAt : Untouched m q → (args : List String) → Keeps NodeAt (spawn m args)
  unfolding spawn
  spawn-NodeAt calm args = record { run = λ w k. subst P (sym (calm w.tick args w.fs)) k }

  pub run-NodeAt : Untouched m q → (args : List String) → Keeps NodeAt (run_checked m args)
  run-NodeAt calm args = run_checked-Keeps m NodeAt (spawn-NodeAt calm) args
