-- ===== src/Setup/Checks/Version.antt =====
-- scripts/agent-setup.py: `version`, `device_id` and `download_seconds`.
pub mod Pattern
use see_size.Base.{
  ℕ, ◌≤◌, ◌≡◌, ◌↔◌, String, Bool, true, false, not, ◌&&◌, ◌||◌, Option, none, some, List, [], ◌∷◌,
  ◌++◌, if◌then◌else◌, leb, eqb, length, arith, All, refl,
}
use see_size.Base.Text.{codes, is_alnum, all_of}
use see_size.Script.{Machine, Result, ok, err, value_error}

-- `[A-Za-z0-9.-]`
abbrev is_label_char : ℕ → Bool
is_label_char c = is_alnum c || eqb c b'.' || eqb c b'-'

-- `(?:-[A-Za-z0-9.-]+)?` up to the end.
label_end : List ℕ → Bool
label_end [] = true
label_end (c ∷ []) = false
label_end (c ∷ d ∷ s) = eqb c b'-' && all_of is_label_char (d ∷ s)

abbrev dot_then : (List ℕ → Bool) → List ℕ → Bool
dot_then k [] = false
dot_then k (c ∷ s) = eqb c b'.' && k s

-- `\d` in a pattern for `str` is any Unicode decimal digit: the class is given.
module _ (decimal : ℕ → Bool) where
  -- `\d+` followed by a text that the continuation takes; the flag says that a digit was seen.
  digits_then : (List ℕ → Bool) → Bool → List ℕ → Bool
  digits_then k seen [] = seen && k []
  digits_then k seen (c ∷ s) =
      let more = digits_then k true s in if decimal c then more else seen && k (c ∷ s)

  -- `\d+(?:-[A-Za-z0-9.-]+)?`, `\d+\.` before that, and once more.
  abbrev patch_end : List ℕ → Bool
  patch_end = digits_then label_end false

  abbrev minor_end : List ℕ → Bool
  minor_end = digits_then (dot_then patch_end) false

  abbrev major_end : List ℕ → Bool
  major_end = digits_then (dot_then minor_end) false

  -- `v\d+\.\d+\.\d+(?:-[A-Za-z0-9.-]+)?`
  is_version : List ℕ → Bool
  is_version [] = false
  is_version (c ∷ s) = eqb c b'v' && major_end s

unfoldable pub version : Machine → String → Result String
unfolding is_version digits_then label_end
version m value =
    if is_version m.decimal (codes value)
    then ok value
    else err (value_error "Expected explicit release version such as v0.1.0")

abbrev pub is_id_char : ℕ → Bool
is_id_char c = is_alnum c || eqb c b'_' || eqb c b'.' || eqb c b'-'

-- `[A-Za-z0-9][A-Za-z0-9_.-]{0,127}`
is_device_id : List ℕ → Bool
is_device_id [] = false
is_device_id (c ∷ s) = is_alnum c && all_of is_id_char s && leb (length s) 127

unfoldable pub device_id : String → Result String
unfolding is_device_id
device_id value =
    if is_device_id (codes value)
    then ok value
    else err (value_error "Use 1..128 letters, digits, dot, underscore or hyphen for device ID")

-- `int(value)` is done before; a negative number is none.
unfoldable pub download_seconds : Option ℕ → Result ℕ
download_seconds none = err (value_error "Download budget must be 30..3600 seconds per resource")
download_seconds (some seconds) =
    if not (leb 30 seconds && leb seconds 3600)
    then err (value_error "Download budget must be 30..3600 seconds per resource")
    else ok seconds
