-- ===== src/Storage/Order.antt =====
-- The order of texts and of rollback points is total and transitive.
use Prim.Native.Nat.{Ordering}
use Prim.Native.Nat.{compare as compare_ℕ}
use Prim.Native.Char.{code}
use Prim.Native.String.compare
use Prim.Native.String.{compare, then as first_unequal}
use text.Mathlib.TextEquality.{Char-path}
use see_size.Base.{
  ℕ, String, ◌≡◌, Bool, true, false, ◌||◌, ◌&&◌, List, [], ◌∷◌, ltb, eqb, arith, string_eq, refl,
  ap,
}
use see_size.Base.Text.{codes}
use see_size.Storage.{le, newer}

-- The order by code points.
codes_le : List ℕ → List ℕ → Bool
codes_le [] t = true
codes_le (c ∷ s) [] = false
codes_le (c ∷ s) (d ∷ t) = ltb c d || eqb c d && codes_le s t

codes_le-total : (s t : List ℕ) → codes_le s t ≡ false → codes_le t s ≡ true
unfolding codes_le
codes_le-total [] t h = ground arith
codes_le-total (c ∷ s) [] h = ground arith
codes_le-total (c ∷ s) (d ∷ t) h = ground (arith, codes_le-total s t)

codes_le_trans : (s t u : List ℕ) → codes_le s t ≡ true → codes_le t u ≡ true → codes_le s u ≡ true
unfolding codes_le
codes_le_trans [] t u h k = ground arith
codes_le_trans (c ∷ s) [] u h k = ground arith
codes_le_trans (c ∷ s) (d ∷ t) [] h k = ground arith
codes_le_trans (c ∷ s) (d ∷ t) (e ∷ u) h k = ground (arith, codes_le_trans s t u)

le-codes : (s t : String) → le s t ≡ codes_le (codes s) (codes t)
unfolding codes_le
le-codes String.[] String.[] = refl
le-codes String.[] (String.◌∷◌ d t) = rw (compare.nil-cons d t, le) refl
le-codes (String.◌∷◌ c s) String.[] = rw (compare.cons-nil c s, le) refl
le-codes (String.◌∷◌ c s) (String.◌∷◌ d t) =
    rw (compare.cons-cons c d s t, le) (go (le-codes s t) (compare_ℕ (code c) (code d)))
  where
    go :
        le s t ≡ codes_le (codes s) (codes t)
        → (o : Ordering)
        → ◌≡◌ {A = Bool}
            (elim (first_unequal o (compare s t)) [ Ordering.gt ↦ false | _ ↦ true ])
            (elim o [ Ordering.lt ↦ true | _ ↦ false ]
              || elim o [ Ordering.eq ↦ true | _ ↦ false ] && codes_le (codes s) (codes t))
    go same Ordering.lt = refl
    go same Ordering.eq = same
    go same Ordering.gt = refl

pub le-total : (s t : String) → le s t ≡ false → le t s ≡ true
le-total s t h = rw (le-codes t s) (codes_le-total (codes s) (codes t) (rw (← le-codes s t) h))

pub le_trans : (s t u : String) → le s t ≡ true → le t u ≡ true → le s u ≡ true
le_trans s t u h k =
    rw (le-codes s u) (codes_le_trans _ (codes t) _ (rw (← le-codes s t) h) (rw (← le-codes t u) k))

codes_le-antisym : (s t : List ℕ) → codes_le s t ≡ true → codes_le t s ≡ true → s ≡ t
unfolding codes_le
codes_le-antisym [] [] h k = refl
codes_le-antisym [] (d ∷ t) h k = ground arith
codes_le-antisym (c ∷ s) [] h k = ground arith
codes_le-antisym (c ∷ s) (d ∷ t) h k = ground (arith, codes_le-antisym s t)

head_of : List ℕ → ℕ
head_of [] = 0
head_of (c ∷ s) = c

tail_of : List ℕ → List ℕ
tail_of [] = []
tail_of (c ∷ s) = s

codes-injective : (s t : String) → codes s ≡ codes t → s ≡ t
unfolding head_of tail_of
codes-injective String.[] String.[] h = refl
codes-injective String.[] (String.◌∷◌ d t) h = ground arith
codes-injective (String.◌∷◌ c s) String.[] h = ground arith
codes-injective (String.◌∷◌ c s) (String.◌∷◌ d t) h =
    λ i. String.◌∷◌ (Char-path c d (ap head_of h) i) (codes-injective s t (ap tail_of h) i)

pub le-antisym : (s t : String) → le s t ≡ true → le t s ≡ true → s ≡ t
le-antisym s t h k =
    codes-injective s t (codes_le-antisym _ _ (rw (← le-codes s t) h) (rw (← le-codes t s) k))

pub newer-total : (p q : String × String) → newer p q ≡ false → newer q p ≡ true
newer-total (a, n) (b, k) h = ground (arith, le-total k n, le-total b a)

pub newer_trans : (p q r : String × String) → newer p q ≡ true → newer q r ≡ true → newer p r ≡ true
newer_trans (a, n) (b, k) (c, l) h g =
    ground (arith, le_trans l k n, le_trans c b a, le-antisym b a)
