-- ===== src/Script/Rules.antt =====
-- Statements about actions: what holds before, after a return and after an exception, with a rule
-- for each way in which the scripts put actions together.
use see_size.Base.{
  Option, none, some, All, Bool, ◌⊎◌, inl, inr, true, false, ◌≡◌, refl, List, [], ◌∷◌,
  if◌then◌else◌,
}
use see_size.Fs.{Fs}
use see_size.Script.{
  or_raise, gets, Exc, World, Result, ok, err, Action, pure, raise, ◌>>=◌, raise_if, catch, finally,
  each,
}

abbrev pub Outcome :
    {A : Type 0} → (A → World → Type 0) → (Exc → World → Type 0) → Result A × World → Type 0
Outcome Q E (ok a, w) = Q a w
Outcome Q E (err e, w) = E e w

-- From a state with `P`, the action returns into `Q` or raises into `E`.
pub record Triple {A : Type 0} (P : World → Type 0) (m : Action A) (Q : A → World → Type 0)
    (E : Exc → World → Type 0) : Type 0 where
  pub run : (w : World) → P w → Outcome Q E (m w)

-- The action keeps `I`, whether it returns or raises.
abbrev pub Keeps : {A : Type 0} → (World → Type 0) → Action A → Type 0
Keeps I m = Triple I m (λ _. I) (λ _. I)

module _ {A : Type 0} {P : World → Type 0} {E : Exc → World → Type 0} where
  pub Triple-pure :
      (a : A) {Q : A → World → Type 0} → ((w : World) → P w → Q a w) → Triple P (pure a) Q E
  Triple-pure a h = record { run = h }

  pub Triple-raise :
      (e : Exc) {Q : A → World → Type 0} → ((w : World) → P w → E e w) → Triple P (raise e) Q E
  Triple-raise e h = record { run = h }

  -- Weaken what comes before and what comes after.
  pub Triple-weaken :
      {P' : World → Type 0} {m : Action A} {Q Q' : A → World → Type 0} {E' : Exc → World → Type 0}
      → ((w : World) → P w → P' w)
      → ((a : A) (w : World) → Q' a w → Q a w)
      → ((e : Exc) (w : World) → E' e w → E e w)
      → Triple P' m Q' E'
      → Triple P m Q E
  Triple-weaken {P'} {m} {Q} {Q'} {E'} hp hq he t = record {
    run = λ w p. go (m w) (t.run w (hp w p));
  }
    where
      go : (o : Result A × World) → Outcome Q' E' o → Outcome Q E o
      go (ok a, w) h = hq a w h
      go (err e, w) h = he e w h

module _ {A B : Type 0} {P : World → Type 0} {E : Exc → World → Type 0} where
  pub Triple-bind :
      {m : Action A} {f : A → Action B} {Q : A → World → Type 0} {R : B → World → Type 0}
      → Triple P m Q E
      → ((a : A) → Triple (Q a) (f a) R E)
      → Triple P (m >>= f) R E
  unfolding ◌>>=◌
  Triple-bind {m} {f} {Q} {R} tm tf = record { run = λ w p. go (m w).0 (m w).1 (tm.run w p) }
    where
      go :
          (r : Result A) (w : World)
          → Outcome Q E (r, w)
          → Outcome R E (elim r [ ok a ↦ f a w | err e ↦ (err e, w) ])
      go (ok a) w h = (tf a).run w h
      go (err e) w h = h

module _ {A : Type 0} {P : World → Type 0} {Q : A → World → Type 0}
    {E F : Exc → World → Type 0} where
  pub Triple-catch :
      {m : Action A} {h : Exc → Action A}
      → Triple P m Q E
      → ((e : Exc) → Triple (E e) (h e) Q F)
      → Triple P (catch m h) Q F
  unfolding catch
  Triple-catch {m} {h} tm th = record { run = λ w p. go (m w).0 (m w).1 (tm.run w p) }
    where
      go :
          (r : Result A) (w : World)
          → Outcome Q E (r, w)
          → Outcome Q F (elim r [ ok a ↦ (ok a, w) | err e ↦ h e w ])
      go (ok a) w x = x
      go (err e) w x = (th e).run w x

  -- The last part runs after a return and after an exception.
  pub Triple-finally :
      {m : Action A} {last : Action (Unit {0})} {R : A → World → Type 0}
      → Triple P m Q E
      → ((a : A) → Triple (Q a) last (λ _. R a) F)
      → ((e : Exc) → Triple (E e) last (λ _. F e) F)
      → Triple P (finally m last) R F
  unfolding finally
  Triple-finally {m} {last} {R} tm tq te = record { run = λ w p. go (m w).0 (m w).1 (tm.run w p) }
    where
      after :
          (r : Result A) (o : Result (Unit {0}) × World)
          → Outcome (λ _ w. Outcome R F (r, w)) F o
          → Outcome R F (elim o.0 [ ok u ↦ (r, o.1) | err e ↦ (err e, o.1) ])
      after r (ok u, w) x = x
      after r (err e, w) x = x

      go :
          (r : Result A) (w : World)
          → Outcome Q E (r, w)
          → let (s, w') = last w in Outcome R F (elim s [ ok u ↦ (r, w') | err e ↦ (err e, w') ])
      go (ok a) w x = after (ok a) (last w) ((tq a).run w x)
      go (err e) w x = after (err e) (last w) ((te e).run w x)

module _ {P : World → Type 0} {E : Exc → World → Type 0} where
  -- After a guard its test is known to have failed.
  pub Triple-raise_if :
      (b : Bool) (e : Exc) {Q : Unit {0} → World → Type 0}
      → ((w : World) → P w → b ≡ true → E e w)
      → ((w : World) → P w → b ≡ false → Q tt w)
      → Triple P (raise_if b e) Q E
  Triple-raise_if true e hr hk = record { run = λ w p. hr w p refl }
  Triple-raise_if false e hr hk = record { run = λ w p. hk w p refl }

-- A loop whose invariant speaks of the items that are left.
pub Triple-each :
    {A : Type 0} (I : List A → World → Type 0) {E : Exc → World → Type 0}
    {f : A → Action (Unit {0})}
    → ((x : A) (xs : List A) → Triple (I (x ∷ xs)) (f x) (λ _. I xs) E)
    → (xs : List A) → Triple (I xs) (each xs f) (λ _. I []) E
unfolding each
Triple-each I body [] = Triple-pure tt (λ w p. p)
Triple-each I body (x ∷ xs) = Triple-bind (body x xs) (λ _. Triple-each I body xs)

pub Outcome-if :
    {A : Type 0} (Q : A → World → Type 0) (E : Exc → World → Type 0) (b : Bool)
    (x y : Result A × World)
    → (b ≡ true → Outcome Q E x)
    → (b ≡ false → Outcome Q E y)
    → Outcome Q E (if b then x else y)
Outcome-if Q E true x y hx hy = hx refl
Outcome-if Q E false x y hx hy = hy refl

pub Triple-if :
    {A : Type 0} {P : World → Type 0} {Q : A → World → Type 0} {E : Exc → World → Type 0} (b : Bool)
    {x y : Action A}
    → (b ≡ true → Triple P x Q E)
    → (b ≡ false → Triple P y Q E)
    → Triple P (if b then x else y) Q E
Triple-if true hx hy = hx refl
Triple-if false hx hy = hy refl

pub Keeps-if :
    {A : Type 0} {I : World → Type 0} (b : Bool) {x y : Action A}
    → Keeps I x
    → Keeps I y
    → Keeps I (if b then x else y)
Keeps-if true hx hy = hx
Keeps-if false hx hy = hy

pub Keeps-pure : {A : Type 0} {I : World → Type 0} (a : A) → Keeps I (pure a)
Keeps-pure a = record { run = λ w h. h }

pub Keeps-raise : {A : Type 0} {I : World → Type 0} (e : Exc) → Keeps I (raise {A = A} e)
Keeps-raise e = record { run = λ w h. h }

-- A result that is at hand changes nothing.
pub lift-Keeps : {A : Type 0} {I : World → Type 0} (r : Result A) → Keeps I (λ w. (r, w))
lift-Keeps (ok a) = record { run = λ w h. h }
lift-Keeps (err e) = record { run = λ w h. h }

pub Keeps-raise_if : {I : World → Type 0} (b : Bool) (e : Exc) → Keeps I (raise_if b e)
Keeps-raise_if true e = record { run = λ w h. h }
Keeps-raise_if false e = record { run = λ w h. h }

-- What holds for each member of a family before and after holds for the whole family.
pub Keeps-all :
    {A X : Type 0} {m : Action A} (I : X → World → Type 0)
    → ((x : X) → Keeps (I x) m)
    → Keeps (λ w. (x : X) → I x w) m
Keeps-all {A} {X} {m} I t = record { run = λ w k. go (m w) (λ x. (t x).run w (k x)) }
  where
    go :
        (o : Result A × World)
        → ((x : X) → Outcome {A = A} (λ _. I x) (λ _. I x) o)
        → Outcome {A = A} (λ _ w. (x : X) → I x w) (λ _ w. (x : X) → I x w) o
    go (ok a, w) h = h
    go (err e, w) h = h

pub Keeps-some :
    {A X : Type 0} {m : Action A} (I : X → World → Type 0)
    → ((x : X) → Keeps (I x) m)
    → Keeps (λ w. (x : X) × I x w) m
Keeps-some {A} {X} {m} I t = record { run = λ w k. go k.0 (m w) ((t k.0).run w k.1) }
  where
    go :
        (x : X) (o : Result A × World)
        → Outcome {A = A} (λ _. I x) (λ _. I x) o
        → Outcome {A = A} (λ _ w. (x : X) × I x w) (λ _ w. (x : X) × I x w) o
    go x (ok a, w) h = (x, h)
    go x (err e, w) h = (x, h)

-- Two facts side by side; the first keeps what it says through the exception too.
pub Triple-and :
    {A : Type 0} {m : Action A} {P P' : World → Type 0} {Q Q' : A → World → Type 0}
    {E E' : Exc → World → Type 0}
    → Triple P m Q E
    → Triple P' m Q' E'
    → Triple (λ w. P w × P' w) m (λ a w. Q a w × Q' a w) (λ e w. E e w × E' e w)
Triple-and {A} {m} {Q} {Q'} {E} {E'} s t = record {
  run = λ w k. go (m w) (s.run w k.0) (t.run w k.1);
}
  where
    go :
        (o : Result A × World)
        → Outcome Q E o
        → Outcome Q' E' o
        → Outcome {A = A} (λ a w. Q a w × Q' a w) (λ e w. E e w × E' e w) o
    go (ok a, w) x y = (x, y)
    go (err e, w) x y = (x, y)

pub Keeps-or :
    {A : Type 0} {m : Action A} {I J : World → Type 0}
    → Keeps I m
    → Keeps J m
    → Keeps (λ w. I w ⊎ J w) m
Keeps-or s t = record {
  run = λ w k. elim k [
    | inl x ↦ (Triple-weaken (λ v y. y) (λ _ v y. inl y) (λ _ v y. inl y) s).run w x
    | inr x ↦ (Triple-weaken (λ v y. y) (λ _ v y. inr y) (λ _ v y. inr y) t).run w x
  ];
}

pub Keeps-and :
    {A : Type 0} {m : Action A} {I J : World → Type 0}
    → Keeps I m
    → Keeps J m
    → Keeps (λ w. I w × J w) m
Keeps-and s t = Triple-and s t

-- To name the state that an action starts from.
pub Triple-at :
    {A : Type 0} {m : Action A} {P : World → Type 0} {Q : A → World → Type 0}
    {E : Exc → World → Type 0}
    → ((w : World) → P w → Triple (λ v. v ≡ w) m Q E)
    → Triple P m Q E
Triple-at t = record { run = λ w p. (t w p).run w refl }

-- A fact about no state, from the precondition.
pub Triple-given :
    {A : Type 0} {F : Type 0} {m : Action A} {P : World → Type 0} {Q : A → World → Type 0}
    {E : Exc → World → Type 0}
    → (F → Triple P m Q E)
    → Triple (λ w. P w × F) m Q E
Triple-given t = record { run = λ w p. (t p.1).run w p.0 }

-- A witness from the precondition.
pub Triple-some :
    {A : Type 0} {X : Type 0} {m : Action A} {P : X → World → Type 0} {Q : A → World → Type 0}
    {E : Exc → World → Type 0}
    → ((x : X) → Triple (P x) m Q E)
    → Triple (λ w. (x : X) × P x w) m Q E
Triple-some t = record { run = λ w p. (t p.0).run w p.1 }

-- The same for a loop over items of which something is known.
pub Triple-each_of :
    {A : Type 0} (S : A → Type 0) (I : List A → World → Type 0) {E : Exc → World → Type 0}
    {f : A → Action (Unit {0})}
    → ((x : A) (xs : List A) → S x → Triple (I (x ∷ xs)) (f x) (λ _. I xs) E)
    → (xs : List A) → All S xs
    → Triple (I xs) (each xs f) (λ _. I []) E
unfolding each
Triple-each_of S I body [] a = Triple-pure tt (λ w p. p)
Triple-each_of S I body (x ∷ xs) a =
    Triple-bind (body x xs a.0) (λ _. Triple-each_of S I body xs a.1)

-- The value of a pure function is known after it.
pub lift_lem :
    {A : Type 0} {P : World → Type 0} (r : Result A)
    → Triple P (λ w. (r, w)) (λ a w. P w × (r ≡ ok a)) (λ _. P)
lift_lem (ok a) = record { run = λ w h. (h, refl) }
lift_lem (err e) = record { run = λ w h. h }

-- What stays beside what is shown.
pub Triple-beside :
    {A : Type 0} {m : Action A} {I P : World → Type 0} {Q : A → World → Type 0}
    → Keeps I m
    → Triple P m Q (λ _ w. Unit)
    → Triple (λ w. I w × P w) m (λ a w. I w × Q a w) (λ _. I)
Triple-beside s t = Triple-weaken (λ w k. k) (λ a w k. k) (λ e w k. k.0) (Triple-and s t)

-- A fact about no state is kept by everything.
pub Keeps-fact :
    {A : Type 0} {F : Type 0} {m : Action A} {I : World → Type 0}
    → Keeps I m
    → Keeps (λ w. I w × F) m
Keeps-fact {A} {F} {m} {I} t = record { run = λ w k. go (m w) (t.run w k.0) k.1 }
  where
    go :
        (o : Result A × World)
        → Outcome {A = A} (λ _. I) (λ _. I) o
        → F
        → Outcome {A = A} (λ _ w. I w × F) (λ _ w. I w × F) o
    go (ok a, w) h f = (h, f)
    go (err e, w) h f = (h, f)

-- A return is a return, and an exception an exception.
pub Triple-anything :
    {A : Type 0} {P : World → Type 0} (m : Action A) → Triple P m (λ _ w. Unit) (λ _ w. Unit)
Triple-anything {A} m = record { run = λ w k. go (m w) }
  where
    go : (o : Result A × World) → Outcome {A = A} (λ _ w. Unit) (λ _ w. Unit) o
    go (ok a, w) = tt
    go (err e, w) = tt

pub Keeps-or_raise :
    {A : Type 0} {I : World → Type 0} (o : Option A) (e : Exc) → Keeps I (or_raise o e)
Keeps-or_raise none e = Keeps-raise e
Keeps-or_raise (some a) e = Keeps-pure a

pub Keeps-gets : {A : Type 0} {I : World → Type 0} (f : Fs → A) → Keeps I (gets f)
Keeps-gets f = record { run = λ w k. k }

-- Where only the return is of interest.
pub quiet :
    {A : Type 0} {m : Action A} {P : World → Type 0} {Q : A → World → Type 0}
    {E : Exc → World → Type 0}
    → Triple P m Q E
    → Triple P m Q (λ _ w. Unit)
quiet t = Triple-weaken (λ w k. k) (λ a w k. k) (λ e w k. tt) t

-- Where nothing can be returned, what follows does not matter.
pub Triple-never :
    {A : Type 0} {a : Action A} {Q : A → World → Type 0} {E : Exc → World → Type 0}
    → Triple (λ w. ⊥) a Q E
Triple-never = record { run = λ w k. absurd k }
