-- ===== src/Tests/Words.antt =====
-- A way to take words apart at the spaces, as `shlex.split` does for plain words.
use Prim.Native.Char.{Char, char, code, nul, IsScalar}
use Prim.Native.Nat.{ℕ, Ordering, compare}
use package.text.Mathlib.TextEquality.{IsScalar-prop}
use see_size.Base.{
  ◌≡◌, refl, ap, ◌∙◌, arith, Bool, true, List, String, ltb, Option, not, some, map, All, ◌++◌,
}
use see_size.Setup.Register.{spaced}
use see_size.Setup.Register.Unit.{IsWord}
use see_size.Base.Text.{codes, all_of, split_words, is_space}
use see_size.Setup.Checks.Hub.Plain.{is_plain_char}

char_low : (n : ℕ) (o : Ordering) → compare n 55296 ≡ o → Char
char_low n Ordering.lt e = char n (rw e tt)
char_low n Ordering.eq e = nul
char_low n Ordering.gt e = nul

char_of : ℕ → Char
unfolding char_low
char_of n = char_low n (compare n 55296) refl

low : ℕ → Bool
low n = ltb n 55296

char_of-code : (c : Char) → low (code c) ≡ true → char_of (code c) ≡ c
unfolding char_of char_low low
char_of-code (char n p) h = go (compare n 55296) refl
  where
    go : (o : Ordering) (e : compare n 55296 ≡ o) → char_low n o e ≡ char n p
    go Ordering.lt e = ap (λ (q : IsScalar n). char n q) (IsScalar-prop n _ p)
    go Ordering.eq e = absurd (ground arith)
    go Ordering.gt e = absurd (ground arith)

-- The text with these characters.
text_of : List ℕ → String
text_of List.[] = String.[]
text_of (List.◌∷◌ c s) = String.◌∷◌ (char_of c) (text_of s)

all_of-weaken :
    (p q : ℕ → Bool) (s : List ℕ)
    → ((c : ℕ) → p c ≡ true → q c ≡ true)
    → all_of p s ≡ true
    → all_of q s ≡ true
unfolding all_of
all_of-weaken p q List.[] f h = refl
all_of-weaken p q (List.◌∷◌ c s) f h = ground (arith, f c, all_of-weaken p q s f)

plain-low : (n : ℕ) → is_plain_char n ≡ true → low n ≡ true
unfolding low
plain-low n h = ground arith

no_space : ℕ → Bool
no_space n = not (is_space n)

plain-no_space : (n : ℕ) → is_plain_char n ≡ true → no_space n ≡ true
unfolding is_space no_space
plain-no_space n h = ground arith

text_of-codes : (s : String) → all_of low (codes s) ≡ true → text_of (codes s) ≡ s
unfolding all_of text_of
text_of-codes String.[] h = refl
text_of-codes (String.◌∷◌ c s) h =
    let first = char_of-code c (ground arith) in
    let rest = text_of-codes s (ground arith) in rw first (rw rest refl)

split_words-last :
    (c : ℕ) (l : List ℕ)
    → all_of no_space (List.◌∷◌ c l) ≡ true
    → split_words (List.◌∷◌ c l) ≡ List.◌∷◌ (List.◌∷◌ c l) List.[]
unfolding all_of split_words no_space
split_words-last c List.[] h = ground arith
split_words-last c (List.◌∷◌ d l) h = ground (arith, split_words-last d l)

space_32 : is_space 32 ≡ true
unfolding is_space
space_32 = refl

split_words-next :
    (c : ℕ) (l s : List ℕ)
    → all_of no_space (List.◌∷◌ c l) ≡ true
    → split_words (List.◌∷◌ c l ++ (List.◌∷◌ 32 s)) ≡ List.◌∷◌ (List.◌∷◌ c l) (split_words s)
unfolding all_of split_words no_space
split_words-next c List.[] s h = ground (arith, space_32)
split_words-next c (List.◌∷◌ d l) s h = ground (arith, split_words-next d l s)

pub split : List ℕ → Option (List String)
unfolding text_of split_words
split s = some (map text_of (split_words s))

word_back : (w : String) → IsWord w → text_of (codes w) ≡ w
word_back w h = text_of-codes w (all_of-weaken is_plain_char low (codes w) plain-low h.1)

word_no_space : (w : String) → IsWord w → all_of no_space (codes w) ≡ true
word_no_space w h = all_of-weaken is_plain_char no_space (codes w) plain-no_space h.1

split-one : (w : String) → IsWord w → map text_of (split_words (codes w)) ≡ List.◌∷◌ w List.[]
split-one String.[] h = absurd (h.0 refl)
split-one (String.◌∷◌ c s) h =
    rw (split_words-last (code c) (codes s) (word_no_space (String.◌∷◌ c s) h))
      (ap (λ (w : String). List.◌∷◌ w List.[]) (word_back (String.◌∷◌ c s) h))

split-more :
    (w : String) (rest : List ℕ)
    → IsWord w
    → map text_of (split_words (codes w ++ (List.◌∷◌ 32 rest)))
      ≡ List.◌∷◌ w (map text_of (split_words rest))
split-more String.[] rest h = absurd (h.0 refl)
split-more (String.◌∷◌ c s) rest h =
    rw (split_words-next (code c) (codes s) rest (word_no_space (String.◌∷◌ c s) h)) (
      ap (λ (w : String). List.◌∷◌ w (map text_of (split_words rest)))
        (word_back (String.◌∷◌ c s) h))

split-words : (ws : List String) → All IsWord ws → map text_of (split_words (spaced ws)) ≡ ws
unfolding spaced split_words
split-words List.[] h = refl
split-words (List.◌∷◌ w List.[]) h = split-one w h.0
split-words (List.◌∷◌ w (List.◌∷◌ v ws)) h =
    split-more w (spaced (List.◌∷◌ v ws)) h.0
    ∙ ap (λ (us : List String). List.◌∷◌ w us) (split-words (List.◌∷◌ v ws) h.1)

pub split-spaced : (ws : List String) → All IsWord ws → split (spaced ws) ≡ some ws
unfolding split
split-spaced ws h = ap (λ (us : List String). some us) (split-words ws h)
