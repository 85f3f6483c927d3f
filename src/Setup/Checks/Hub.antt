-- ===== src/Setup/Checks/Hub.antt =====
-- scripts/agent-setup.py: `hub_url`, and `str.strip` on what the operator types.
pub mod Plain
use Prim.Native.Char.{code}
use Prim.Native.String.{String, [], ◌∷◌}
use see_size.Base.{
  ℕ, ◌==◌, string_eq, Bool, true, false, not, ◌&&◌, ◌||◌, Option, none, some, List, if◌then◌else◌,
  leb, eqb,
}
use see_size.Base.Text.{is_space, codes, is_alnum, after}
use see_size.Script.{Machine, Url, Result, ok, value_error}
use see_size.Script.Checked.{◌>>=◌, ◌>>◌, refuse_if, or_refuse}

-- A text is truthy when it is there and not empty.
abbrev truthy : Option String → Bool
truthy none = false
truthy (some s) = not (s == "")

-- `[A-Za-z0-9.\-\[\]:]`
abbrev pub is_host_char : ℕ → Bool
is_host_char c = is_alnum c || eqb c b'.' || eqb c b'-' || eqb c b'[' || eqb c b']' || eqb c b':'

-- `[A-Za-z0-9.\-\[\]:]+/?` up to the end; the flag says that a character was seen.
host_end : Bool → List ℕ → Bool
host_end seen List.[] = seen
host_end seen (List.◌∷◌ c List.[]) = is_host_char c || (seen && eqb c b'/')
host_end seen (List.◌∷◌ c s) = is_host_char c && host_end true s

-- `https://[A-Za-z0-9.\-\[\]:]+/?`
is_safe_url : List ℕ → Bool
is_safe_url s = elim (after (codes "https://") s) [ none ↦ false | some t ↦ host_end false t ]

-- `value.rstrip('/')`
pub rstrip_slash : String → String
rstrip_slash [] = []
rstrip_slash (c ∷ s) = let t = rstrip_slash s in if t == "" && eqb (code c) b'/' then [] else c ∷ t

abbrev has_path : Url → Bool
has_path u = not (u.path == "" || u.path == "/")

abbrev port_in_range : Option (Option ℕ) → Bool
port_in_range none = false
port_in_range (some none) = true
port_in_range (some (some p)) = leb 1 p && leb p 65535

abbrev pub bad_origin : Url → Bool
bad_origin u =
    not (u.scheme == "https")
    || not (truthy u.hostname)
    || truthy u.username
    || truthy u.password
    || not (u.query == "")
    || not (u.fragment == "")
    || has_path u

unfoldable pub hub_url : Machine → String → Result String
unfolding is_safe_url host_end after rstrip_slash
hub_url m value = do
  u ← or_refuse (m.urlsplit value) (value_error "Invalid URL")
  refuse_if (bad_origin u)
      (value_error "Hub must be an HTTPS origin without credentials, query or path")
  refuse_if (not (is_safe_url (codes value))) (value_error "Invalid Hub URL")
  refuse_if (not (port_in_range u.port)) (value_error "Invalid HTTPS port")
  ok (rstrip_slash value)

lstrip : String → String
lstrip [] = []
lstrip (c ∷ s) = let t = lstrip s in if is_space (code c) then t else c ∷ s

rstrip : String → String
rstrip [] = []
rstrip (c ∷ s) = let t = rstrip s in if t == "" && is_space (code c) then [] else c ∷ t

-- `text.strip()`
unfoldable pub strip : String → String
unfolding lstrip rstrip is_space
strip s = rstrip (lstrip s)
