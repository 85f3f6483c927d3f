-- ===== src/Base/Text.antt =====
-- Texts character by character: code points, character classes, `rstrip`.
use Prim.Native.Nat.{ℕ}
use Prim.Native.Char.{code}
use Prim.Native.String.{String}
use mathlib.Core.Bool.{Bool, true, false, ◌&&◌, ◌||◌}
use mathlib.Core.Option.{Option, none, some}
use mathlib.Core.List.{List, [], ◌∷◌}
use see_size.Base.Tests.{leb, eqb, if◌then◌else◌, is_some}

abbrev pub codes : String → List ℕ
codes String.[] = []
codes (String.◌∷◌ c s) = code c ∷ codes s

abbrev pub is_digit : ℕ → Bool
is_digit c = leb b'0' c && leb c b'9'

abbrev pub is_lower : ℕ → Bool
is_lower c = leb b'a' c && leb c b'z'

abbrev pub is_upper : ℕ → Bool
is_upper c = leb b'A' c && leb c b'Z'

abbrev pub is_alnum : ℕ → Bool
is_alnum c = is_upper c || is_lower c || is_digit c

-- One or more, zero or more characters of a class, to the end of the text.
unfoldable pub all_of : (ℕ → Bool) → List ℕ → Bool
all_of p [] = true
all_of p (c ∷ s) = p c && all_of p s

abbrev onto : ℕ → List (List ℕ) → List (List ℕ)
onto c [] = (c ∷ []) ∷ []
onto c (l ∷ ls) = (c ∷ l) ∷ ls

abbrev begins_with : ℕ → List ℕ → Bool
begins_with c [] = false
begins_with c (d ∷ s) = eqb d c

-- The text after a prefix.
unfoldable pub after : List ℕ → List ℕ → Option (List ℕ)
after [] s = some s
after (c ∷ p) [] = none
after (c ∷ p) (d ∷ s) = if eqb c d then after p s else none

-- `text.split('\n')`
unfoldable pub split_lines : List ℕ → List (List ℕ)
split_lines [] = [] ∷ []
split_lines (c ∷ s) = let rest = split_lines s in if eqb c 10 then [] ∷ rest else onto c rest

-- What `str.splitlines` takes for the end of a line.
abbrev pub is_break : ℕ → Bool
is_break c =
    (leb 10 c && leb c 13) || (leb 28 c && leb c 30) || eqb c 0x85 || eqb c 0x2028 || eqb c 0x2029

-- `text.splitlines()`; a carriage return and a newline are one end.
unfoldable pub splitlines : List ℕ → List (List ℕ)
splitlines [] = []
splitlines (c ∷ s) =
    let rest = splitlines s in
    if is_break c then (if eqb c 13 && begins_with 10 s then rest else [] ∷ rest) else onto c rest

-- The characters that `str.isspace` knows.
unfoldable pub is_space : ℕ → Bool
is_space c =
    (leb 9 c && leb c 13)
    || (leb 28 c && leb c 32)
    || eqb c 0x85
    || eqb c 0xa0
    || eqb c 0x1680
    || (leb 0x2000 c && leb c 0x200a)
    || eqb c 0x2028
    || eqb c 0x2029
    || eqb c 0x202f
    || eqb c 0x205f
    || eqb c 0x3000

abbrev in_word : List ℕ → Bool
in_word [] = false
in_word (c ∷ s) = if is_space c then false else true

-- `text.split()`
unfoldable pub split_words : List ℕ → List (List ℕ)
split_words [] = []
split_words (c ∷ s) =
    let rest = split_words s in
    if is_space c then rest else if in_word s then onto c rest else (c ∷ []) ∷ rest

-- `part in text`
unfoldable pub within : List ℕ → List ℕ → Bool
within p [] = is_some (after p [])
within p (c ∷ s) = is_some (after p (c ∷ s)) || within p s

abbrev same_text : List ℕ → List ℕ → Bool
same_text [] [] = true
same_text (c ∷ s) (d ∷ t) = eqb c d && same_text s t
same_text _ _ = false

-- `text.endswith(part)`
unfoldable pub ends_with : List ℕ → List ℕ → Bool
ends_with p [] = same_text p []
ends_with p (c ∷ s) = same_text p (c ∷ s) || ends_with p s
