-- ===== src/Storage/Main.antt =====
-- scripts/storage-maintenance.py: `main` behind the command line. The mount points and the reading
-- of times are given. A value of the register that is no text counts as missing.
pub mod Safety
use see_size.Base.{
  ℕ, ◌+◌, ◌*◌, ◌^◌, ◌==◌, nat_eq, string_eq, list_eq, String, ◌<>◌, Bool, true, false, not, ◌&&◌,
  ◌||◌, Option, none, some, List, [], ◌∷◌, ◌++◌, if◌then◌else◌, contains, ltb, is_some, starts_with,
  map,
}
use see_size.Base.Dict.{lookup, children}
use see_size.Base.Text.{codes, splitlines, split_words, within, ends_with}
use see_size.Fs.{
  FilePath, ◌//◌, Fs, Bytes, Node, is_symlink, is_file, is_dir, exists, stat, size, holds, under,
  parent, kind_is_file,
}
use see_size.Json.{
  Json, boolean, number, text, array, object, Items, nil, cons, Fields, end, field, get_field,
}
use see_size.Script.{
  Machine, World, Exc, system_exit, os_error, value_error, crash, Result, ok, err, Action, pure,
  raise, ◌>>=◌, ◌>>◌, raise_if, or_raise, catch, finally, each, gets,
}
use see_size.Script.Checked.{lift}
use see_size.Script.Files.{
  change, read, write, rename, rmtree, unlink, unlink_if_there, make_temp_file, run_checked,
}
use see_size.Setup.Cache.{refuse}
use see_size.Storage.{Entry, plan}

-- The command line.
pub record Args : Type 0 where
  pub root : String
  pub apply : Bool

abbrev text_of : Option Json → Option String
text_of (some (text s)) = some s
text_of _ = none

entry_of : Json → Result Entry
entry_of (object fs) = ok (record {
  name = text_of (get_field "name" fs);
  kind = text_of (get_field "kind" fs);
  created_at = text_of (get_field "created_at" fs);
  expires_at = text_of (get_field "expires_at" fs);
})
entry_of _ = err crash

entries_in : Items → Result (List Entry)
entries_in nil = ok []
entries_in (cons j rest) = elim (entry_of j) [
  | err e ↦ err e
  | ok x ↦ elim (entries_in rest) [ err e ↦ err e | ok xs ↦ ok (x ∷ xs) ]
]

-- Of other values only an empty one can be gone through.
entries_of : Json → Result (List Entry)
entries_of (array items) = entries_in items
entries_of (object end) = ok []
entries_of (text s) = if s == "" then ok [] else err crash
entries_of _ = err crash

abbrev busy_states : List (List ℕ)
busy_states = codes "active" ∷ codes "activating" ∷ codes "deactivating" ∷ codes "reloading" ∷ []

-- A backup or restore service that is not at rest, in a line of `systemctl list-units`.
is_busy : List (List ℕ) → Bool
is_busy (name ∷ load ∷ state ∷ sub ∷ rest) =
    (within (codes "backup") name || within (codes "restore") name) && contains busy_states state
is_busy _ = false

any_busy : List (List ℕ) → Bool
any_busy [] = false
any_busy (l ∷ ls) = is_busy (split_words l) || any_busy ls

-- `owned`
unfoldable pub is_partial_name : String → Bool
is_partial_name n =
    (starts_with n ".seesize-backup-" || starts_with n ".status-")
    && ends_with (codes ".partial") (codes n)

-- A temporary file of the backup program that is two days old.
is_old_partial : Fs → FilePath → ℕ → String → Bool
is_old_partial fs backups now n =
    is_partial_name n
    && not (is_symlink fs (backups // n))
    && is_file fs (backups // n)
    && holds (λ x. ltb (x.mtime + 48 * 3600) now) (stat fs (backups // n))

-- The bytes of the regular files at and below a folder.
tree_size : FilePath → Fs → ℕ
tree_size d [] = 0
tree_size d ((p, n) ∷ rest) =
    let below = tree_size d rest in
    if under d p && kind_is_file n.kind then size n + below else below

texts : List String → Items
texts [] = nil
texts (s ∷ ss) = cons (text s) (texts ss)

abbrev removed_key : Bool → String
removed_key apply = if apply then "removed" else "planned"

-- `except BlockingIOError`: another process that holds the lock shows as an OSError of `flock`.
held : Exc → Exc
held os_error = system_exit "upgrade or maintenance active; retry later"
held e = e

module _ (m : Machine) where
  -- Everything about the root.
  check_root : FilePath → Action (Unit {0})
  check_root root = do
    refuse (λ fs. not (exists fs root)) os_error
    refuse
        (λ fs.
          is_symlink fs root
          || root == []
          || root == m.home
          || not (is_file fs (root // "data" // "seesize.db")))
        (system_exit "refusing unrecognized application root")

  abbrev pub lock_path : FilePath → FilePath
  lock_path root = root // ".maintenance.lock"

  take_lock : FilePath → Action (Unit {0})
  take_lock root = do
    refuse (λ fs. is_symlink fs (lock_path root)) (system_exit "unsafe lock path")
    λ w.
        if is_some (lookup (lock_path root) w.fs)
        then change m (λ fs. fs) w
        else write m (lock_path root) [] 0o644 w
    catch (change m (λ fs. fs)) (λ e. raise (held e))

  read_register : FilePath → Action (List Entry)
  read_register root = do
    raw ← read m (root // "maintenance-artifacts.json")
    j ← or_raise (m.loads raw) (value_error "JSONDecodeError")
    lift (entries_of j)

  refuse_busy : Action (Unit {0})
  refuse_busy = do
    shown ← run_checked m (
        "systemctl" ∷ "--user" ∷ "list-units" ∷ "--all" ∷ "--type=service" ∷ "--no-legend"
        ∷ "--plain" ∷ "seesize*" ∷ [])
    raise_if (any_busy (splitlines (codes shown)))
        (system_exit "backup/restore service active; retry next maintenance window")

  remove : FilePath → String → Action (Unit {0})
  remove root n w =
      if is_dir w.fs (root // n) then rmtree m (root // n) w else unlink m (root // n) w

  -- The loop over `backups.iterdir()`, with what it adds to `targets`.
  drop_partials : FilePath → ℕ → List String → Action (List String)
  drop_partials backups now [] = pure []
  drop_partials backups now (n ∷ ns) = do
    dropped ← (λ w.
        if is_old_partial w.fs backups now n
        then (unlink m (backups // n) >> pure (("backups/" <> n) ∷ [])) w
        else (ok [], w))
    rest ← drop_partials backups now ns
    pure (dropped ++ rest)

  -- `if args.apply`: what is planned goes, and what the backup program left.
  clean : FilePath → ℕ → List String → Action (List String)
  clean root now targets = do
    refuse_busy
    each targets (remove root)
    let backups = root // "backups"
    refuse (λ fs. is_symlink fs backups || not (parent backups == root))
        (system_exit "unsafe backup directory")
    refuse (λ fs. not (is_dir fs backups)) os_error
    names ← gets (children backups)
    dropped ← drop_partials backups now names
    pure (targets ++ dropped)

  abbrev report : String → Bool → List String → ℕ → ℕ → Bool → Json
  report checked apply targets total free warning = object (
      field "checked_at" (text checked) (
        field "applied" (boolean apply) (
          field (removed_key apply) (array (texts targets)) (
            field "application_bytes" (number (some total)) (
              field "filesystem_free_bytes" (number (some free)) (
                field "warning" (boolean warning) (
                  field "warning_rule"
                    (text "application > 1 GiB or filesystem free < 2 GiB; not a hard quota")
                    end)))))))

  -- The report, replaced in one step.
  save_report : FilePath → Json → Action (Unit {0})
  save_report root j = do
    temp ← make_temp_file m root ".storage-"
    finally
        (do write m temp (m.dump_indented j) 0o600; rename m temp (root // "storage-status.json"))
        (unlink_if_there m temp)

  -- What is removed, or planned, and the end of the report; the exit status.
  conclude : FilePath → Bool → String → List String → Action ℕ
  conclude root apply checked targets = do
    total ← gets (tree_size root)
    free ← (λ w. pure (m.free_bytes w.tick) w)
    let warning = ltb (1024 ^ 3) total || ltb free (2 * 1024 ^ 3)
    if apply then save_report root (report checked apply targets total free warning) else pure tt
    pure (if warning then 1 else 0)

  unfoldable pub main : (FilePath → Bool) → (String → ℕ → Result Bool) → Args → Action ℕ
  unfolding entry_of entries_in entries_of is_busy any_busy is_partial_name is_old_partial tree_size
      texts check_root held take_lock read_register refuse_busy remove drop_partials clean
      save_report conclude
  main is_mount due args = do
    let root = m.absolute args.root
    check_root root
    if args.apply then take_lock root else pure tt
    entries ← read_register root
    (checked, now) ← (λ w. pure (m.now_text w.tick, m.clock w.tick) w)
    targets ← (λ w. (plan is_mount due root now w.fs entries, w))
    gone ← (if args.apply then clean root now targets else pure targets)
    conclude root args.apply checked gone
