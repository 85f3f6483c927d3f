-- ===== src/Setup/Checks/Hub/Plain.antt =====
-- The Hub's URL and the device's id go into the service's command line: no accepted one has a
-- character that the shell's or systemd's rules read in a special way.
use Prim.Native.Char.{Char, code}
use Prim.Native.String.{String, [], ◌∷◌}
use see_size.Base.{
  ℕ, ◌≡◌, ◌≢◌, refl, sym, ap, if◌then◌else◌, Bool, true, false, not, ◌&&◌, ◌||◌, Option, none, some,
  List, eqb, arith, ◌==◌, string_eq, Bool-cases, inl, inr, length, ◌≤◌,
}
use see_size.Base.Text.{codes, all_of, after}
use see_size.Script.{Machine, ok, value_error}
use see_size.Script.Checked.{refuse_if, or_refuse}
use see_size.Script.Success.{bind-ok, then-ok, refuse_if-ok, ok-injective}
use see_size.Setup.Checks.Version.{device_id, is_id_char}
use see_size.Setup.Checks.Hub.{
  hub_url, is_safe_url, host_end, is_host_char, rstrip_slash, bad_origin, port_in_range,
}

-- A letter, a digit or one of `_.-:/[]`.
abbrev pub is_plain_char : ℕ → Bool
is_plain_char c = is_host_char c || eqb c b'/' || eqb c b'_'

host_end-plain : (seen : Bool) (s : List ℕ) → host_end seen s ≡ true → all_of is_plain_char s ≡ true
unfolding host_end all_of
host_end-plain seen List.[] h = refl
host_end-plain seen (List.◌∷◌ c List.[]) h = ground arith
host_end-plain seen (List.◌∷◌ c (List.◌∷◌ d s)) h =
    ground (arith, host_end-plain true (List.◌∷◌ d s))

rstrip_slash-plain :
    (s : String)
    → all_of is_plain_char (codes s) ≡ true
    → all_of is_plain_char (codes (rstrip_slash s)) ≡ true
unfolding rstrip_slash all_of
rstrip_slash-plain [] h = refl
rstrip_slash-plain (c ∷ s) h = elim (Bool-cases (rstrip_slash s == "" && eqb (code c) b'/')) [
  | inl e ↦ rw e refl
  | inr e ↦ rw e (ground (arith, rstrip_slash-plain s))
]

all_of-after :
    (P : ℕ → Bool) (p s t : List ℕ)
    → after p s ≡ some t
    → all_of P p ≡ true
    → all_of P t ≡ true
    → all_of P s ≡ true
unfolding after all_of
all_of-after P List.[] s t h a b = ground arith
all_of-after P (List.◌∷◌ c p) List.[] t h a b = refl
all_of-after P (List.◌∷◌ c p) (List.◌∷◌ d s) t h a b = ground (arith, all_of-after P p s t)

is_safe_url-plain : (s : List ℕ) → is_safe_url s ≡ true → all_of is_plain_char s ≡ true
unfolding is_safe_url all_of
is_safe_url-plain s h = go (after (codes "https://") s) refl h
  where
    go :
        (o : Option (List ℕ))
        → after (codes "https://") s ≡ o
        → elim o [ none ↦ false | some t ↦ host_end false t ] ≡ true
        → all_of is_plain_char s ≡ true
    go none e k = cc
    go (some t) e k =
        all_of-after is_plain_char (codes "https://") s t e refl (host_end-plain false t k)

-- An accepted URL is the operator's without the slashes at its end, and each of its characters is a
-- letter, a digit or one of `_.-:/[]`: none is a space, a quote, a backslash, a percent sign or the
-- end of a line.
pub hub_url-plain :
    (m : Machine) (value hub : String)
    → hub_url m value ≡ ok hub
    → (hub ≡ rstrip_slash value) × (all_of is_plain_char (codes hub) ≡ true)
unfolding hub_url
hub_url-plain m value hub h =
    let (u, parsed, h1) = bind-ok (or_refuse (m.urlsplit value) (value_error "Invalid URL")) _ h in
    let (origin, h2) =
      then-ok
        (refuse_if (bad_origin u)
          (value_error "Hub must be an HTTPS origin without credentials, query or path"))
        _ h1 in
    let (form, h3) =
      then-ok (refuse_if (not (is_safe_url (codes value))) (value_error "Invalid Hub URL")) _ h2 in
    let (port, done) =
      then-ok (refuse_if (not (port_in_range u.port)) (value_error "Invalid HTTPS port")) _ h3 in
    let shown =
      refuse_if-ok (not (is_safe_url (codes value))) (value_error "Invalid Hub URL") form in
    let safe : is_safe_url (codes value) ≡ true = go (is_safe_url (codes value)) shown in
    let same : hub ≡ rstrip_slash value = sym (ok-injective done) in
    (same, rw same (rstrip_slash-plain value (is_safe_url-plain (codes value) safe)))
  where
    go : (b : Bool) → not b ≡ false → b ≡ true
    go true e = refl
    go false e = cc

-- An accepted id is returned as it is; it has 1 to 128 characters, each a letter, a digit or one of
-- `_.-`.
device_id-plain :
    (value identity : String)
    → device_id value ≡ ok identity
    → (identity ≡ value)
      × (1 ≤ length (codes value))
      × (length (codes value) ≤ 128)
      × (all_of is_id_char (codes value) ≡ true)
unfolding device_id all_of
device_id-plain value identity h = go (codes value) refl
  where
    go :
        (s : List ℕ)
        → codes value ≡ s
        → (identity ≡ value)
          × (1 ≤ length (codes value))
          × (length (codes value) ≤ 128)
          × (all_of is_id_char (codes value) ≡ true)
    go List.[] e = absurd (ground arith)
    go (List.◌∷◌ c s) e = (ground arith, ground arith, ground arith, ground arith)

kept_nonempty : (b : Bool) (c : Char) (t : String) → b ≡ false → (if b then [] else c ∷ t) ≢ ""
kept_nonempty true c t e k = cc
kept_nonempty false c t e k = cc

-- A text that is all slashes does not begin as an address does.
rstrip_slash-empty : (s : String) → rstrip_slash s ≡ "" → is_safe_url (codes s) ≡ false
unfolding rstrip_slash is_safe_url after
rstrip_slash-empty [] h = refl
rstrip_slash-empty (c ∷ s) h = elim (Bool-cases (rstrip_slash s == "" && eqb (code c) b'/')) [
  | inl e ↦ ground arith
  | inr e ↦
      absurd (kept_nonempty (rstrip_slash s == "" && eqb (code c) b'/') c (rstrip_slash s) e h)
]

is_id_char-plain : (s : List ℕ) → all_of is_id_char s ≡ true → all_of is_plain_char s ≡ true
unfolding all_of
is_id_char-plain List.[] h = refl
is_id_char-plain (List.◌∷◌ c s) h = ground (arith, is_id_char-plain s)

pub hub_url-nonempty : (m : Machine) (value hub : String) → hub_url m value ≡ ok hub → hub ≢ ""
unfolding hub_url
hub_url-nonempty m value hub h e =
    let same = (hub_url-plain m value hub h).0 in
    let unsafe = rstrip_slash-empty value (cc (same, e)) in ground (arith, unsafe)

pub device_id-IsPlain :
    (value identity : String)
    → device_id value ≡ ok identity
    → (identity ≢ "") × (all_of is_plain_char (codes identity) ≡ true)
device_id-IsPlain value identity h =
    let (same, long, short, shown) = device_id-plain value identity h in
    rw same (
      (λ e. absurd (omega (arith, long, ap (λ (t : String). length (codes t)) e))),
      is_id_char-plain (codes value) shown,
    )
