-- ===== src/Script/Files.antt =====
-- The calls of `os`, `pathlib`, `shutil`, `tempfile` and `subprocess` that wait on the machine.
use see_size.Base.{
  ℕ, suc, ◌==◌, ◌<>◌, String, string_eq, list_eq, nat_eq, not, ◌&&◌, none, some, List, [], ◌∷◌,
  if◌then◌else◌, is_some,
}
use see_size.Base.Dict.{lookup, insert, erase}
use see_size.Fs.{
  FilePath, ◌//◌, Bytes, folder, Node, Fs, stat, is_dir, content_at, remove_tree, put_file,
  set_mode, set_owner, move_file, move_tree, vacant,
}
use see_size.Script.{
  os_error, process_error, crash, fine, fails, Reply, Machine, World, Result, ok, err, Action, pure,
  raise, ◌>>=◌, ◌>>◌,
}

abbrev pub of_result : {A : Type 0} → Result A → Action A
of_result r w = (r, w)

module _ (m : Machine) where
  abbrev pub ticked : World → Fs → World
  ticked w fs = record w { fs = fs; tick = suc w.tick }

  -- A change that happens whole or not at all.
  unfoldable pub change : (Fs → Fs) → Action (Unit {0})
  change f w = elim (m.fate w.tick) [
    | fine ↦ (ok tt, ticked w (f w.fs))
    | fails e part ↦ (err e, ticked w w.fs)
  ]

  -- `path.write_bytes(body)`: a write that fails leaves what was there, or a part. The scripts
  -- write to no links.
  unfoldable pub write : FilePath → Bytes → ℕ → Action (Unit {0})
  write p body mode w = elim (m.fate w.tick) [
    | fine ↦ (ok tt, ticked w (put_file p body m.euid mode (m.clock w.tick) w.fs))
    | fails e none ↦ (err e, ticked w w.fs)
    | fails e (some part) ↦ (err e, ticked w (put_file p part m.euid mode (m.clock w.tick) w.fs))
  ]

  -- `path.read_bytes()`, `path.read_text()`
  unfoldable pub read : FilePath → Action Bytes
  read p w = elim (content_at w.fs p) [ none ↦ (err os_error, w) | some b ↦ (ok b, w) ]

  -- `path.stat()`
  unfoldable pub stat_of : FilePath → Action Node
  stat_of p w = elim (stat w.fs p) [ none ↦ (err os_error, w) | some n ↦ (ok n, w) ]

  -- `shutil.copyfile(source, destination)`
  unfoldable pub copy_file : FilePath → FilePath → Action (Unit {0})
  copy_file p q = do body ← read p; write q body 0o644

  abbrev pub chmod : FilePath → ℕ → Action (Unit {0})
  chmod p mode = change (set_mode p mode)

  -- `os.chown(path, uid, gid)`; groups are left out.
  abbrev pub chown : FilePath → ℕ → Action (Unit {0})
  chown p uid = change (set_owner p uid)

  -- `path.unlink()`
  unfoldable pub unlink : FilePath → Action (Unit {0})
  unlink p w = if is_some (lookup p w.fs) then change (erase p) w else (err os_error, w)

  -- `path.unlink(missing_ok=True)`
  unfoldable pub unlink_if_there : FilePath → Action (Unit {0})
  unlink_if_there p w = if is_some (lookup p w.fs) then change (erase p) w else (ok tt, w)

  -- `path.replace(destination)` of a file: the kernel renames in one step.
  unfoldable pub rename : FilePath → FilePath → Action (Unit {0})
  rename p q w =
      if is_some (lookup p w.fs) && not (is_dir w.fs q)
      then change (move_file p q) w
      else (err os_error, w)

  -- `path.replace(destination)` of a folder, refused where something stands.
  unfoldable pub rename_folder : FilePath → FilePath → Action (Unit {0})
  rename_folder p q w =
      if is_some (lookup p w.fs) && vacant q w.fs
      then change (move_tree p q) w
      else (err os_error, w)

  abbrev pub new_folder : ℕ → ℕ → ℕ → Node
  new_folder uid mode now = record { kind = folder; uid = uid; mode = mode; mtime = now }

  -- `path.mkdir(mode)`
  unfoldable pub mkdir : FilePath → ℕ → Action (Unit {0})
  mkdir p mode w =
      if is_some (lookup p w.fs)
      then (err os_error, w)
      else change (insert p (new_folder m.euid mode (m.clock w.tick))) w

  -- `tempfile.mkdtemp(prefix=…, dir=…)`; names in use are refused.
  unfoldable pub make_temp_folder : FilePath → String → Action FilePath
  make_temp_folder d prefix w =
      let p = d // (prefix <> m.temp_name w.tick) in
      if is_some (lookup p w.fs)
      then (err os_error, w)
      else (change (insert p (new_folder m.euid 0o700 (m.clock w.tick))) >> pure p) w

  -- `tempfile.mkstemp(prefix=…, dir=…)` and the `os.close` that follows it.
  unfoldable pub make_temp_file : FilePath → String → Action FilePath
  make_temp_file d prefix w =
      let p = d // (prefix <> m.temp_name w.tick) in
      if is_some (lookup p w.fs)
      then (err os_error, w)
      else (change (put_file p [] m.euid 0o600 (m.clock w.tick)) >> pure p) w

  -- `shutil.rmtree(path)`
  unfoldable pub rmtree : FilePath → Action (Unit {0})
  rmtree p w = if is_some (lookup p w.fs) then change (remove_tree p) w else (err os_error, w)

  -- A command's process: its status, its output, and what it does to the files.
  unfoldable pub spawn : List String → Action Reply
  spawn args w =
      let r = m.shell w.tick args w.fs in
      (ok r, record w { fs = r.fs; tick = suc w.tick; commands = args ∷ w.commands })

  -- `subprocess.run(…, timeout=…)` without `check`: the status, where the process ended in time.
  unfoldable pub run_status : List String → Action ℕ
  run_status args = do r ← spawn args; of_result r.ending

  -- `subprocess.run(…, check=True, timeout=…)`
  unfoldable pub run_checked : List String → Action String
  run_checked args = do
    r ← spawn args
    code ← of_result r.ending
    if code == 0 then pure r.stdout else raise process_error

  -- `input(…)`, at the end of the input an EOFError.
  unfoldable pub read_line : Action String
  read_line w = elim (m.typed w.tick) [
    | none ↦ (err crash, ticked w w.fs)
    | some s ↦ (ok s, ticked w w.fs)
  ]
