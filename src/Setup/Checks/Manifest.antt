-- ===== src/Setup/Checks/Manifest.antt =====
-- scripts/agent-setup.py: `manifest`.
use see_size.Base.{
  ℕ, ◌==◌, nat_eq, string_eq, String, Bool, true, false, not, ◌&&◌, ◌||◌, Option, none, some, List,
  [], ◌∷◌, if◌then◌else◌, contains, eqb, leb, length,
}
use see_size.Base.Text.{codes, is_digit, all_of}
use see_size.Base.Dict.{Dict, lookup}
use see_size.Fs.{Bytes}
use see_size.Json.{
  Json, boolean, number, text, array, object, Items, nil, cons, Fields, end, field, get_field,
}
use see_size.Script.{Machine, Result, ok, err, value_error, crash}
use see_size.Script.Checked.{◌>>=◌, ◌>>◌, refuse_if, or_refuse}
use see_size.Setup.{components}
use see_size.Setup.Checks.Version.{version, device_id}
use see_size.Setup.Checks.Hub.{hub_url}

-- What the installer uses of an accepted manifest.
pub record Release : Type 0 where
  pub version : String
  pub sha256 : Dict String String
  pub hub_requirement : String

-- `value == 1`: in Python also `True` and `1.0`.
abbrev equals_one : Option Json → Bool
equals_one none = false
equals_one (some (number (some n))) = eqb n 1
equals_one (some (boolean b)) = b
equals_one (some _) = false

-- `value == s`
abbrev equals_text : Option Json → String → Bool
equals_text none s = false
equals_text (some (text t)) s = t == s
equals_text (some _) s = false

field_names : Fields → List String
field_names end = []
field_names (field k v rest) = k ∷ field_names rest

all_in : List String → List String → Bool
all_in [] ys = true
all_in (x ∷ xs) ys = contains ys x && all_in xs ys

-- `set(xs) == set(ys)`
abbrev same_set : List String → List String → Bool
same_set xs ys = all_in xs ys && all_in ys xs

-- An array's members, where all are texts; none where one cannot be in a set.
pub data Members : Type 0 where
  unhashable : Members
  members : List String → Bool → Members

add_member : Json → Members → Members
add_member v unhashable = unhashable
add_member (array xs) (members names texts) = unhashable
add_member (object fs) (members names texts) = unhashable
add_member (text s) (members names texts) = members (s ∷ names) texts
add_member _ (members names texts) = members names false

members_of : Items → Members
members_of nil = members [] true
members_of (cons v rest) = add_member v (members_of rest)

-- `m.get('sha256', {})` as an object with exactly the components' names. Of another value the
-- comparison of sets fails, or `set` or the later `.values()` raises.
hashes_of : Option Json → Result Fields
hashes_of none = err (value_error "Release must contain agent and enrollment hashes")
hashes_of (some (object fs)) =
    if same_set (field_names fs) components
    then ok fs
    else err (value_error "Release must contain agent and enrollment hashes")
hashes_of (some (text s)) = err (value_error "Release must contain agent and enrollment hashes")
hashes_of (some (array xs)) = elim (members_of xs) [
  | unhashable ↦ err crash
  | members names texts ↦
      if texts && same_set names components
      then err crash
      else err (value_error "Release must contain agent and enrollment hashes")
]
hashes_of (some _) = err crash

-- `[0-9a-f]`
abbrev pub is_hex : ℕ → Bool
is_hex c = is_digit c || leb b'a' c && leb c b'f'

-- `[0-9a-f]{64}`
unfoldable pub is_sha256 : List ℕ → Bool
is_sha256 s = eqb (length s) 64 && all_of is_hex s

-- The values as texts, where each is the hexadecimal form of a hash.
hash_texts : Fields → Option (Dict String String)
hash_texts end = some []
hash_texts (field k (text h) rest) = elim (hash_texts rest) [
  | none ↦ none
  | some d ↦ if is_sha256 (codes h) then some ((k, h) ∷ d) else none
]
hash_texts (field k _ rest) = none

-- `not isinstance(value, str) or not value`
requirement : Option Json → Option String
requirement (some (text s)) = if s == "" then none else some s
requirement _ = none

abbrev pub as_object : Json → Result Fields
as_object (object fs) = ok fs
as_object _ = err crash

unfoldable pub manifest : Machine → Bytes → String → Result Release
unfolding get_field field_names all_in add_member members_of hashes_of hash_texts is_sha256
    requirement
manifest m body requested = do
  j ← or_refuse (m.loads body) (value_error "JSONDecodeError")
  fs ← as_object j
  refuse_if (not (equals_one (get_field "schema" fs)))
      (value_error "Release metadata version/platform mismatch")
  v ← version m requested
  refuse_if
      (not (equals_text (get_field "version" fs) v)
        || not (equals_text (get_field "platform" fs) "linux-amd64"))
      (value_error "Release metadata version/platform mismatch")
  hashes ← hashes_of (get_field "sha256" fs)
  d ← or_refuse (hash_texts hashes) (value_error "Invalid SHA256")
  hub ←
      or_refuse (requirement (get_field "hub_requirement" fs))
        (value_error "Missing Hub compatibility statement")
  ok (record { version = v; sha256 = d; hub_requirement = hub })

-- `m['sha256'][name]`
unfoldable pub hash_of : Release → String → Result String
hash_of r name = or_refuse (lookup name r.sha256) crash

-- `manifest(json.dumps(saved), saved['version'])` of a saved manifest.
unfoldable pub saved_release : Machine → Bytes → Result Release
unfolding get_field
saved_release m raw = do
  j ← or_refuse (m.loads raw) (value_error "JSONDecodeError")
  fs ← as_object j
  v ← or_refuse (get_field "version" fs) crash
  elim v [
    | text s ↦ manifest m (m.dumps j) s
    | _ ↦
        if equals_one (get_field "schema" fs)
        then err crash
        else err (value_error "Release metadata version/platform mismatch")
  ]

abbrev pub as_text : Option Json → Result String
as_text (some (text s)) = ok s
as_text _ = err crash

pub record Connection : Type 0 where
  pub hub : String
  pub identity : String

-- `hub_url(connection['hub']), device_id(connection['id'])`
unfoldable pub saved_connection : Machine → Bytes → Result Connection
unfolding get_field
saved_connection m raw = do
  j ← or_refuse (m.loads raw) (value_error "JSONDecodeError")
  fs ← as_object j
  h ← as_text (get_field "hub" fs)
  hub ← hub_url m h
  i ← as_text (get_field "id" fs)
  identity ← device_id i
  ok (record { hub = hub; identity = identity })
