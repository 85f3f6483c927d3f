-- ===== src/Script/Frame/Keep.antt =====
-- Each call leaves alone the regular files that it does not name.
use see_size.Base.{
  ℕ, ◌<>◌, String, ◌≡◌, refl, ◌≢◌, list_eq, string_eq, true, false, not, ◌&&◌, Option, none, some,
  List, [], nat_eq, ◌==◌, arith, if◌then◌else◌, is_some,
}
use see_size.Base.Dict.{lookup, insert, erase, lookup-insert}
use see_size.Fs.{
  FilePath, ◌//◌, Bytes, Node, Fs, is_dir, vacant, under, remove_tree, put_file, set_mode,
  move_file, move_tree,
}
use see_size.Fs.Laws.{
  lookup-put_file_ne, content-set_mode, lookup-remove_tree, lookup-erase, lookup-move_file_ne,
  lookup-move_tree_ne,
}
use see_size.Script.{crash, process_error, Machine, World, ok, err}
use see_size.Script.Files.{
  ticked, change, write, copy_file, chmod, unlink, unlink_if_there, rename, rename_folder, mkdir,
  make_temp_folder, make_temp_file, rmtree, spawn, run_checked, run_status, read_line, new_folder,
}
use see_size.Script.Rules.{
  Outcome, Triple, Keeps, Outcome-if, Keeps-if, lift-Keeps, Triple-bind, Keeps-pure, Keeps-raise,
  Triple-pure, Triple-weaken,
}
use see_size.Script.Frame.{Holds, change_lem, write_lem, read_lem, guarded_lem}

-- Commands that do not write below a folder.
abbrev pub Undisturbed : Machine → FilePath → Type 0
Undisturbed m d =
    (i : ℕ) (args : List String) (fs : Fs) (q : FilePath)
    → under d q ≡ true
    → lookup q (m.shell i args fs).fs ≡ lookup q fs

module _ (m : Machine) (q : FilePath) {b : Bytes} where
  pub write-Holds :
      (p : FilePath) (body : Bytes) (mode : ℕ) → q ≢ p → Keeps (Holds q b) (write m p body mode)
  write-Holds p body mode h =
      write_lem m p body mode
        (λ w now k. ground (arith, lookup-put_file_ne p q body m.euid mode now w.fs h)) (λ w k. k)
        (λ w part now k. ground (arith, lookup-put_file_ne p q part m.euid mode now w.fs h))

  pub copy_file-Holds : (p r : FilePath) → q ≢ r → Keeps (Holds q b) (copy_file m p r)
  unfolding copy_file
  copy_file-Holds p r h =
      Triple-bind (read_lem m p)
        λ body. Triple-weaken (λ w k. k.0) (λ _ w k. k) (λ _ w k. k) (write-Holds r body 0o644 h)

  pub chmod-Holds : (p : FilePath) (mode : ℕ) → Keeps (Holds q b) (chmod m p mode)
  chmod-Holds p mode =
      change_lem m (set_mode p mode) (λ w k. rw (content-set_mode p q mode w.fs) k) (λ w k. k)

  erase-Holds : (p : FilePath) → q ≢ p → Keeps (Holds q b) (change m (erase p))
  erase-Holds p h = change_lem m (erase p) (λ w k. ground (arith, lookup-erase p q w.fs)) (λ w k. k)

  pub unlink-Holds : (p : FilePath) → q ≢ p → Keeps (Holds q b) (unlink m p)
  unfolding unlink
  unlink-Holds p h =
      guarded_lem m (λ fs. is_some (lookup p fs)) (λ w k. k)
        (Triple-weaken (λ w k. k.0) (λ _ w k. k) (λ _ w k. k) (erase-Holds p h))

  pub unlink_if_there-Holds : (p : FilePath) → q ≢ p → Keeps (Holds q b) (unlink_if_there m p)
  unfolding unlink_if_there
  unlink_if_there-Holds p h = record {
    run = λ w k.
        elim (is_some (lookup p w.fs))
          as (λ t.
            Outcome {A = Unit} (λ _. Holds q b) (λ _. Holds q b)
              (if t then change m (erase p) w else (ok tt, w))) [
                | true ↦ (erase-Holds p h).run w k
                | false ↦ k
              ];
  }

  pub rename-Holds : (p r : FilePath) → q ≢ p → q ≢ r → Keeps (Holds q b) (rename m p r)
  unfolding rename
  rename-Holds p r hp hr =
      guarded_lem m (λ fs. is_some (lookup p fs) && not (is_dir fs r)) (λ w k. k)
        (change_lem m (move_file p r) (λ w k. ground (arith, lookup-move_file_ne p r q w.fs hp hr))
          (λ w k. k.0))

  pub rename_folder-Holds :
      (p r : FilePath)
      → under p q ≡ false
      → under r q ≡ false
      → Keeps (Holds q b) (rename_folder m p r)
  unfolding rename_folder
  rename_folder-Holds p r hp hr =
      guarded_lem m (λ fs. is_some (lookup p fs) && vacant r fs) (λ w k. k)
        (change_lem m (move_tree p r) (λ w k. ground (arith, lookup-move_tree_ne p r q w.fs hp hr))
          (λ w k. k.0))

  pub rmtree-Holds : (p : FilePath) → under p q ≡ false → Keeps (Holds q b) (rmtree m p)
  unfolding rmtree
  rmtree-Holds p h =
      guarded_lem m (λ fs. is_some (lookup p fs)) (λ w k. k)
        (change_lem m (remove_tree p) (λ w k. ground (arith, lookup-remove_tree q p w.fs))
          (λ w k. k.0))

  insert-Holds : (p : FilePath) (n : Node) → q ≢ p → Keeps (Holds q b) (change m (insert p n))
  insert-Holds p n h =
      change_lem m (insert p n) (λ w k. ground (arith, lookup-insert q p n w.fs)) (λ w k. k)

  -- What is there is not where nothing is.
  pub ne_of_free :
      (p : FilePath) (w : World) → Holds q b w → is_some (lookup p w.fs) ≡ false → q ≢ p
  ne_of_free p w k e h = ground arith

  pub mkdir-Holds : (p : FilePath) (mode : ℕ) → Keeps (Holds q b) (mkdir m p mode)
  unfolding mkdir
  mkdir-Holds p mode = record {
    run = λ w k.
        Outcome-if _ _ (is_some (lookup p w.fs)) _ _ (λ _. k)
          (λ e. (insert-Holds p _ (ne_of_free p w k e)).run w k);
  }

  -- A new folder has a name that nothing had.
  pub make_temp_folder-Holds :
      (d : FilePath) (prefix : String)
      → Triple
          (Holds q b)
          (make_temp_folder m d prefix)
          (λ t w. Holds q b w × (q ≢ t))
          (λ _. Holds q b)
  unfolding make_temp_folder
  make_temp_folder-Holds d prefix = record {
    run = λ w k.
        let p = d // (prefix <> m.temp_name w.tick) in
        Outcome-if _ _ (is_some (lookup p w.fs)) _ _ (λ _. k)
          (λ e.
            let n = ne_of_free p w k e in
            (Triple-bind (insert-Holds p _ n) (λ _. Triple-pure p (λ v h. (h, n)))).run w k);
  }

  pub make_temp_file-Holds :
      (d : FilePath) (prefix : String)
      → Triple
          (Holds q b)
          (make_temp_file m d prefix)
          (λ t w. Holds q b w × (q ≢ t))
          (λ _. Holds q b)
  unfolding make_temp_file
  make_temp_file-Holds d prefix = record {
    run = λ w k.
        let p = d // (prefix <> m.temp_name w.tick) in
        Outcome-if _ _ (is_some (lookup p w.fs)) _ _ (λ _. k)
          (λ e.
            let n = ne_of_free p w k e in
            (Triple-bind
                (change_lem m (put_file p [] m.euid 0o600 (m.clock w.tick)) {Q = Holds q b}
                  {E = Holds q b}
                  (λ v h.
                    ground (arith, lookup-put_file_ne p q [] m.euid 0o600 (m.clock w.tick) v.fs n))
                  (λ v h. h))
                (λ _. Triple-pure p (λ v h. (h, n)))).run
              w k);
  }

  -- A command that does not write below a folder leaves the files there alone.
  module _ (d : FilePath) (calm : Undisturbed m d) (inside : under d q ≡ true) where
    pub spawn-Holds : (args : List String) → Keeps (Holds q b) (spawn m args)
    unfolding spawn
    spawn-Holds args = record { run = λ w k. ground (arith, calm w.tick args w.fs q inside) }

  pub read_line-Holds : Keeps (Holds q b) (read_line m)
  unfolding read_line
  read_line-Holds = record { run = λ w k. go w k (m.typed w.tick) }
    where
      go :
          (w : World)
          → Holds q b w
          → (o : Option String)
          → Outcome {A = String}
              (λ _. Holds q b)
              (λ _. Holds q b)
              (elim o [ none ↦ (err crash, ticked m w w.fs) | some s ↦ (ok s, ticked m w w.fs) ])
      go w k none = k
      go w k (some s) = k

-- Where every command keeps an invariant, so do the ways to run one.
module _ (m : Machine) (I : World → Type 0)
    (calm : (args : List String) → Keeps I (spawn m args)) where
  pub run_status-Keeps : (args : List String) → Keeps I (run_status m args)
  unfolding run_status
  run_status-Keeps args = Triple-bind (calm args) (λ r. lift-Keeps r.ending)

  pub run_checked-Keeps : (args : List String) → Keeps I (run_checked m args)
  unfolding run_checked
  run_checked-Keeps args = Triple-bind (calm args) λ r.
      Triple-bind (lift-Keeps r.ending)
        λ code. Keeps-if (code == 0) (Keeps-pure r.stdout) (Keeps-raise process_error)

-- Where a new folder is made, and how it is called.
pub make_temp_folder_named :
    (m : Machine) (d : FilePath) (prefix : String) {P : World → Type 0}
    → Triple P
        (make_temp_folder m d prefix)
        (λ t w. (s : String) × (t ≡ d // (prefix <> s)))
        (λ _ w. Unit)
unfolding make_temp_folder
make_temp_folder_named m d prefix = record {
  run = λ w k.
      let p = d // (prefix <> m.temp_name w.tick) in
      Outcome-if _ _ (is_some (lookup p w.fs)) _ _ (λ _. tt)
        (λ e.
          (Triple-bind
              (change_lem m (insert p (new_folder m m.euid 0o700 (m.clock w.tick))) {P = λ _. Unit}
                {Q = λ _. Unit} {E = λ _. Unit} (λ v h. tt) (λ v h. tt))
              (λ _. Triple-pure p (λ v h. (m.temp_name w.tick, refl)))).run
            w tt);
}
