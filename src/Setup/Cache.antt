-- ===== src/Setup/Cache.antt =====
-- scripts/agent-setup.py: `prepare_cache` and `release_binary`.
pub mod Slots
use see_size.Base.{
  ℕ, ◌+◌, ◌*◌, ◌==◌, nat_eq, string_eq, list_eq, String, ◌<>◌, Bool, true, false, not, ◌||◌, List,
  [], ◌∷◌, if◌then◌else◌, ltb, contains, bit_and, is_some,
}
use see_size.Base.Dict.{lookup, insert, children}
use see_size.Fs.{
  FilePath, ◌//◌, Bytes, Node, Fs, holds, is_symlink, is_file, is_dir, exists, owned_by, parent,
  stat, size, put_file,
}
use see_size.Script.{
  Machine, World, Exc, os_error, value_error, Action, Result, ok, err, pure, raise, ◌>>=◌, ◌>>◌,
  gets, raise_if, finally, each,
}
use see_size.Script.Checked.{lift}
use see_size.Script.Files.{change, write, read, rename, unlink, unlink_if_there, mkdir}
use see_size.Setup.{cache, cache_days, components, max_binary, repo}
use see_size.Setup.Checks.Binary.{validate_binary}
use see_size.Setup.Fetch.{fetch}

-- `path.stat().st_mode & mask`, where the path leads somewhere.
abbrev pub has_mode : ℕ → Fs → FilePath → Bool
has_mode mask fs p = holds (λ n. not (bit_and n.mode mask == 0)) (stat fs p)

abbrev unsafe_folder : ℕ → Fs → FilePath → Bool
unsafe_folder mask fs p =
    is_symlink fs p || not (is_dir fs p) || not (owned_by 0 fs p) || has_mode mask fs p

abbrev pub partial : FilePath
partial = cache // ".partial"

unsafe_entry : Fs → String → Bool
unsafe_entry fs n =
    let p = cache // n in
    not (contains (".partial" ∷ components) n)
    || is_symlink fs p
    || not (is_file fs p)
    || not (owned_by 0 fs p)
    || has_mode 0o077 fs p

-- Half written, older than a week, or too large.
stale : ℕ → Fs → String → Bool
stale now fs n =
    n == ".partial"
    || holds (λ x. ltb (x.mtime + cache_days * 86400) now || ltb max_binary (size x))
        (stat fs (cache // n))

-- `if test(files): raise e`
abbrev pub refuse : (Fs → Bool) → Exc → Action (Unit {0})
refuse test e w = raise_if (test w.fs) e w

module _ (m : Machine) where
  -- `path.mkdir(mode, exist_ok=True)`
  mkdir_if_missing : FilePath → ℕ → Action (Unit {0})
  mkdir_if_missing p mode w = if is_dir w.fs p then (ok tt, w) else mkdir m p mode w

  drop_stale : String → Action (Unit {0})
  drop_stale n w = if stale (m.clock w.tick) w.fs n then unlink m (cache // n) w else (ok tt, w)

  unfoldable pub prepare_cache : Action (Unit {0})
  unfolding unsafe_entry stale mkdir_if_missing drop_stale
  prepare_cache = do
    each (parent (parent cache) ∷ parent cache ∷ [])
        (λ p. refuse (λ fs. unsafe_folder 0o022 fs p) (value_error "Unsafe download cache parent"))
    mkdir_if_missing cache 0o700
    refuse (λ fs. unsafe_folder 0o077 fs cache) (value_error "Unsafe download cache directory")
    entries ← gets (children cache)
    each entries (λ n.
        refuse (λ fs. unsafe_entry fs n)
          (value_error "Unexpected or unsafe download cache contents; inspect manually"))
    each entries drop_stale

  -- `os.open(path, O_WRONLY | O_CREAT | O_EXCL, mode)` and what is written through it.
  unfoldable pub create : FilePath → Bytes → ℕ → Action (Unit {0})
  create p body mode w =
      if is_some (lookup p w.fs) then (err os_error, w) else write m p body mode w

  -- The cached file, where it is there and passes; a bad one is removed.
  cached : FilePath → String → (Bytes → Action Bytes) → Action Bytes → Action Bytes
  cached path expected hit miss w =
      if exists w.fs path
      then (do
        body ← read m path
        elim (validate_binary m body expected) [ ok u ↦ hit body | err e ↦ do unlink m path; miss ])
          w
      else miss w

  store : FilePath → Bytes → Action (Unit {0})
  store path body =
      finally (do create partial body 0o600; change m (λ fs. fs); rename m partial path)
        (unlink_if_there m partial)

  download : String → String → FilePath → String → Action Bytes
  download release name path expected = do
    body ← fetch m (repo <> release <> "/" <> name) max_binary
    lift (validate_binary m body expected)
    store path body
    pure body

  unfoldable pub release_binary : String → String → String → Action Bytes
  unfolding cached download store create
  release_binary release name expected = do
    raise_if (not (contains components name)) (value_error "Unknown release component")
    prepare_cache
    cached (cache // name) expected pure (download release name (cache // name) expected)
