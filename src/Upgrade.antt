-- ===== src/Upgrade.antt =====
-- scripts/upgrade-prepare.py: `digest`, `mapping`, `validate_candidate` and `atomic_json`. The text
-- that `json.dump` writes is an argument.
pub mod Parts
pub mod Prepare
pub mod Entries
pub mod Atomic
use see_size.Upgrade.Parts.{partition}
use see_size.Base.{
  ℕ, ◌+◌, leb, length, map, ◌==◌, nat_eq, list_eq, string_eq, String, Bool, true, false, not, ◌&&◌,
  ◌||◌, Option, none, some, List, [], ◌∷◌, ◌++◌, if◌then◌else◌, contains, eqb, is_some,
}
use see_size.Base.Dict.{Dict, lookup}
use see_size.Base.Text.{codes, all_of}
use see_size.Fs.{FilePath, ◌//◌, Fs, Bytes, parent, is_symlink, is_file, exists}
use see_size.Script.{
  Machine, Result, ok, err, value_error, os_error, Action, pure, raise_if, ◌>>=◌, ◌>>◌, finally,
}
use see_size.Script.Files.{change, write, rename, make_temp_file, unlink_if_there, read}
use see_size.Setup.Cache.{refuse}
use see_size.Setup.Checks.Binary.{not_elf}
use see_size.Setup.Checks.Manifest.{is_hex}

abbrev pub upgrade_components : List String
upgrade_components = "hub" ∷ "agent" ∷ "backup" ∷ []

-- The loop of `mapping`, with the result so far.
mapping_from : List String → Dict String String → Result (Dict String String)
mapping_from [] result = ok result
mapping_from (item ∷ items) result = elim (partition item) [
  | none ↦ err (value_error "use unique hub=..., agent=... or backup=... entries")
  | some (component, value) ↦
      let rest = mapping_from items (result ++ ((component, value) ∷ [])) in
      if not (contains upgrade_components component)
        || value == ""
        || is_some (lookup component result)
      then err (value_error "use unique hub=..., agent=... or backup=... entries")
      else rest
]

unfoldable pub mapping : List String → Result (Dict String String)
unfolding mapping_from
mapping items = mapping_from items []

-- `path == path.resolve()`: no link and no `..` on the way.
pub is_real : Fs → FilePath → Bool
is_real fs [] = true
is_real fs (n ∷ p) = not (n == "..") && not (is_symlink fs (p // n)) && is_real fs p

-- `[0-9a-fA-F]`
abbrev pub is_any_hex : ℕ → Bool
is_any_hex c = is_hex c || leb b'A' c && leb c b'F'

-- The letters of `text.lower()`, for hexadecimal ones.
abbrev pub lower : ℕ → ℕ
lower c = if leb b'A' c && leb c b'F' then c + 32 else c

module _ (m : Machine) where
  -- `os.replace` puts the new text there in one step.
  unfoldable pub atomic_json : FilePath → Bytes → Action (Unit {0})
  atomic_json path body = do
    name ← make_temp_file m (parent path) ".upgrade-"
    finally (do write m name body 0o600; change m (λ fs. fs); rename m name path)
        (unlink_if_there m name)

  unfoldable pub digest : FilePath → Action String
  digest path = do body ← read m path; pure (m.sha256 body)

  -- `[0-9a-fA-F]{64}`, a real regular file, an ELF header, and the hash.
  unfoldable pub validate_candidate : FilePath → String → Action FilePath
  unfolding is_real
  validate_candidate path expected = do
    raise_if (not (eqb (length (codes expected)) 64 && all_of is_any_hex (codes expected)))
        (value_error "expected SHA256 must contain 64 hexadecimal characters")
    refuse (λ fs. not (exists fs path)) os_error
    refuse (λ fs. not (is_real fs path) || not (is_file fs path))
        (value_error "candidate must be a regular file without symlink path components")
    header ← read m path
    raise_if (not_elf header) (value_error "candidate is not an x86_64 ELF binary")
    actual ← digest path
    raise_if (not (codes actual == map lower (codes expected)))
        (value_error "candidate SHA256 mismatch")
    pure path
