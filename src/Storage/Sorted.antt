-- ===== src/Storage/Sorted.antt =====
-- `sort` gives the same items in order.
use mathlib.Core.List.Perm
use mathlib.Core.List.{Perm}
use see_size.Base.{
  ℕ, zero, suc, ◌≤◌, ◌≡◌, ◌≢◌, refl, ap, inl, inr, Bool, true, false, List, [], ◌∷◌, ◌++◌, All,
  Bool-cases, arith, take, drop, length,
}
use see_size.Storage.{insert_sorted, sort}

module _ {A : Type 0} (before : A → A → Bool) where
  insert_sorted-Perm : (x : A) (xs : List A) → Perm (insert_sorted before x xs) (x ∷ xs)
  unfolding insert_sorted
  insert_sorted-Perm x [] = Perm.refl _
  insert_sorted-Perm x (y ∷ ys) = elim (Bool-cases (before x y)) [
    | inl e ↦ rw e (Perm.refl _)
    | inr e ↦ rw e (Perm.trans (Perm.cons y (insert_sorted-Perm x ys)) (Perm.swap x y ys))
  ]

  pub sort-Perm : (xs : List A) → Perm (sort before xs) xs
  unfolding sort
  sort-Perm [] = Perm.refl _
  sort-Perm (x ∷ xs) =
      Perm.trans (insert_sorted-Perm x (sort before xs)) (Perm.cons x (sort-Perm xs))

  -- Each item comes before all that follow it.
  pub Ascending : List A → Type 0
  Ascending [] = Unit
  Ascending (x ∷ xs) = All (λ (y : A). before x y ≡ true) xs × Ascending xs

  module _ (total : (x y : A) → before x y ≡ false → before y x ≡ true)
      (trans : (x y z : A) → before x y ≡ true → before y z ≡ true → before x z ≡ true) where
    All-insert :
        (P : A → Type 0) (x : A) (xs : List A) → P x → All P xs → All P (insert_sorted before x xs)
    unfolding insert_sorted
    All-insert P x [] p ps = (p, tt)
    All-insert P x (y ∷ ys) p (q, qs) = elim (Bool-cases (before x y)) [
      | inl e ↦ rw e (p, (q, qs))
      | inr e ↦ rw e (q, All-insert P x ys p qs)
    ]

    -- What comes before an item comes before those after it.
    All-weaken :
        (x y : A) (ys : List A)
        → before x y ≡ true
        → All (λ (z : A). before y z ≡ true) ys
        → All (λ (z : A). before x z ≡ true) ys
    All-weaken x y [] h ks = tt
    All-weaken x y (z ∷ zs) h (k, ks) = (trans x y z h k, All-weaken x y zs h ks)

    insert_sorted-Ascending :
        (x : A) (xs : List A) → Ascending xs → Ascending (insert_sorted before x xs)
    unfolding insert_sorted Ascending
    insert_sorted-Ascending x [] a = (tt, tt)
    insert_sorted-Ascending x (y ∷ ys) (h, a) = elim (Bool-cases (before x y)) [
      | inl e ↦ rw e ((e, All-weaken x y ys e h), (h, a))
      | inr e ↦ rw e (
        All-insert (λ (z : A). before y z ≡ true) x ys (total x y e) h,
        insert_sorted-Ascending x ys a,
      )
    ]

    pub sort-Ascending : (xs : List A) → Ascending (sort before xs)
    unfolding sort Ascending
    sort-Ascending [] = tt
    sort-Ascending (x ∷ xs) = insert_sorted-Ascending x (sort before xs) (sort-Ascending xs)

  -- The first items come before all the others.
  pub take-drop-Ascending :
      (n : ℕ) (xs : List A)
      → Ascending xs
      → All (λ (a : A). All (λ (b : A). before a b ≡ true) (drop n xs)) (take n xs)
  unfolding Ascending
  take-drop-Ascending zero xs a = tt
  take-drop-Ascending (suc n) [] a = tt
  take-drop-Ascending (suc n) (x ∷ xs) (h, a) = (All-drop _ n xs h, take-drop-Ascending n xs a)
    where
      All-drop : (P : A → Type 0) (n : ℕ) (xs : List A) → All P xs → All P (drop n xs)
      All-drop P zero xs ps = ps
      All-drop P (suc n) [] ps = tt
      All-drop P (suc n) (x ∷ xs) (p, ps) = All-drop P n xs ps

module _ {A : Type 0} where
  pub append-take-drop : (n : ℕ) (xs : List A) → take n xs ++ drop n xs ≡ xs
  append-take-drop zero xs = refl
  append-take-drop (suc n) [] = refl
  append-take-drop (suc n) (x ∷ xs) = ap (λ (l : List A). x ∷ l) (append-take-drop n xs)

  pub length-take_le : (n : ℕ) (xs : List A) → length (take n xs) ≤ n
  length-take_le zero xs = omega arith
  length-take_le (suc n) [] = omega arith
  length-take_le (suc n) (x ∷ xs) = omega (arith, length-take_le n xs)

  -- Something is left only after as many items as were to be taken.
  pub length-take_eq : (n : ℕ) (xs : List A) → drop n xs ≢ [] → length (take n xs) ≡ n
  length-take_eq zero xs h = refl
  length-take_eq (suc n) [] h = absurd (h refl)
  length-take_eq (suc n) (x ∷ xs) h = omega (arith, length-take_eq n xs h)
