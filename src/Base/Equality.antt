-- ===== src/Base/Equality.antt =====
-- Python's `==` and `in` on texts, numbers, and lists of such.
use Prim.Native.Nat.{ℕ}
use Prim.Native.String.{String}
use mathlib.Core.Logic.{ite, dite}
use mathlib.Core.Bool.{Bool, true, false, ◌||◌, Bool-discrete}
use mathlib.Core.Path.{◌≡◌, refl, sym}
use mathlib.Core.List.{List, [], ◌∷◌, cons≢nil, tail-eq_of_cons-eq, head-eq_of_cons-eq}
use native.Mathlib.Decide.{ℕ_discrete}
use text.Mathlib.Text
use text.Mathlib.TextEquality.{eq_iff}

pub record Eq {ℓ} (A : Type ℓ) : Type ℓ where
  pub dec : Discrete A

module _ {ℓ} {A : Type ℓ} ⦃e : Eq A⦄ where
  infix 50 ◌==◌
  abbrev pub ◌==◌ : A → A → Bool
  a == b = ite (e.dec a b) true false

  abbrev pub contains : List A → A → Bool
  contains [] a = false
  contains (x ∷ xs) a = a == x || contains xs a

-- Shut in proofs, where a split on a test yields the equation or its negation.
instance unfoldable pub nat_eq : Eq ℕ
nat_eq = record { dec = ℕ_discrete }

instance unfoldable pub string_eq : Eq String
string_eq = record {
  dec = λ s t.
      dite (Bool-discrete (Text.◌==◌ s t) true) (λ same. yes ((eq_iff s t).0 same))
        (λ differ. no (λ p. differ ((eq_iff s t).1 p)));
}

list_discrete {ℓ} : {A : Type ℓ} → Discrete A → Discrete (List A)
list_discrete d [] [] = yes refl
list_discrete d [] (y ∷ ys) = no (λ e. cons≢nil (sym e))
list_discrete d (x ∷ xs) [] = no (λ e. cons≢nil e)
list_discrete d (x ∷ xs) (y ∷ ys) = heads (d x y) (list_discrete d xs ys)
  where
    heads : Dec (x ≡ y) → Dec (xs ≡ ys) → Dec (x ∷ xs ≡ y ∷ ys)
    heads (yes p) (yes q) = yes (λ i. p i ∷ q i)
    heads (yes p) (no n) = no (λ e. n (tail-eq_of_cons-eq e))
    heads (no n) q = no (λ e. n (head-eq_of_cons-eq e))

instance unfoldable pub list_eq {ℓ} : {A : Type ℓ} ⦃e : Eq A⦄ → Eq (List A)
unfolding list_discrete
list_eq ⦃e⦄ = record { dec = list_discrete e.dec }
