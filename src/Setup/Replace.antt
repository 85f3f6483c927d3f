-- ===== src/Setup/Replace.antt =====
-- scripts/agent-setup.py: `atomic_copy`, `validate_rollback` and `update_workspace`.
pub mod Atomic
use see_size.Base.{
  ℕ, ◌==◌, string_eq, nat_eq, list_eq, String, Bool, true, false, not, ◌&&◌, ◌||◌, List, [], ◌∷◌,
  if◌then◌else◌, contains, starts_with,
}
use see_size.Base.Dict.{children}
use see_size.Fs.{FilePath, ◌//◌, Fs, is_symlink, is_file, is_dir, exists, owned_by, parent, name}
use see_size.Script.{
  Machine, Action, ok, err, pure, raise, value_error, ◌>>=◌, ◌>>◌, finally, raise_if,
}
use see_size.Script.Files.{
  change, copy_file, chmod, rename, make_temp_file, make_temp_folder, unlink_if_there, rmtree,
}
use see_size.Setup.{root, components}

abbrev copy_mode : FilePath → ℕ
copy_mode p = if contains components (name p) then 0o755 else 0o644

-- `any(path.glob(prefix + '*'))`, over the names in the folder.
pub any_starts : String → List String → Bool
any_starts prefix [] = false
any_starts prefix (n ∷ ns) = starts_with n prefix || any_starts prefix ns

abbrev pub marker : FilePath → FilePath
marker work = work // "restore-required"

module _ (m : Machine) where
  -- `os.fsync`: no change of the files, and it can fail.
  abbrev fsync : Action (Unit {0})
  fsync = change m (λ fs. fs)

  unfoldable pub atomic_copy : FilePath → FilePath → Action (Unit {0})
  atomic_copy source destination = do
    temporary ← make_temp_file m (parent destination) ".replace-"
    finally
        (do
          copy_file m source temporary
          chmod m temporary (copy_mode destination)
          fsync
          rename m temporary destination)
        (unlink_if_there m temporary)

  unfoldable pub clean_up : FilePath → Action (Unit {0})
  clean_up work w = if exists w.fs (marker work) then (ok tt, w) else rmtree m work w

  -- The context manager around `body`; what is marked for recovery stays.
  unfoldable pub update_workspace : {A : Type 0} → (FilePath → Action A) → Action A
  unfolding any_starts clean_up
  update_workspace body w =
      if any_starts ".update-" (children root w.fs)
      then raise
          (value_error
            "Interrupted update workspace exists; inspect recovery files before retrying")
          w
      else (do work ← make_temp_folder m root ".update-"; finally (body work) (clean_up work)) w

-- `{p.name for p in path.iterdir()} != set(names)`
includes : List String → List String → Bool
includes names [] = true
includes names (n ∷ ns) = contains names n && includes names ns

-- A symlink, no regular file, or not root's.
unsafe_file : Fs → FilePath → Bool
unsafe_file fs p = is_symlink fs p || not (is_file fs p) || not (owned_by 0 fs p)

any_unsafe : Fs → FilePath → List String → Bool
any_unsafe fs p [] = false
any_unsafe fs p (n ∷ ns) = unsafe_file fs (p // n) || any_unsafe fs p ns

unfoldable pub validate_rollback : FilePath → List String → Action (Unit {0})
unfolding includes unsafe_file any_unsafe
validate_rollback path names w =
    if not (exists w.fs path) && not (is_symlink w.fs path)
    then (ok tt, w)
    else (do
      raise_if (is_symlink w.fs path || not (is_dir w.fs path) || not (owned_by 0 w.fs path))
          (value_error "Unsafe rollback directory")
      raise_if (not (includes names (children path w.fs) && includes (children path w.fs) names))
          (value_error "Unexpected rollback contents; inspect manually")
      raise_if (any_unsafe w.fs path (children path w.fs)) (value_error "Unsafe rollback file"))
        w
