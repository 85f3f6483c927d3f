-- ===== src/Deployment/Blockers.antt =====
-- The checks of a deployment that find nothing which blocks: what their results say.
use see_size.Base.{
  ◌+◌, nat_eq, String, ◌≡◌, refl, Bool, true, false, List, [], ◌∷◌, ◌++◌, if◌then◌else◌, All, arith,
}
use see_size.Script.{World, Action}
use see_size.Script.Rules.{Triple, Triple-bind, Triple-given, Triple-pure}
use see_size.Deployment.{Status, pass, warn, fail, Check, add, blockers, gather}

pub blockers-add :
    (name detail : String) (good : Bool) → blockers (add name good detail) ≡ 0 → good ≡ true
unfolding blockers
blockers-add name detail true h = refl
blockers-add name detail false h = ground arith

blockers-append : (xs ys : List Check) → blockers (xs ++ ys) ≡ blockers xs + blockers ys
unfolding blockers
blockers-append [] ys = omega arith
blockers-append (x ∷ xs) ys = go x.status (blockers-append xs ys)
  where
    go :
        (s : Status)
        → blockers (xs ++ ys) ≡ blockers xs + blockers ys
        → elim s [ fail ↦ 1 + blockers (xs ++ ys) | _ ↦ blockers (xs ++ ys) ]
          ≡ elim s [ fail ↦ 1 + blockers xs | _ ↦ blockers xs ] + blockers ys
    go pass h = h
    go warn h = h
    go fail h = omega (arith, h)

pub none_left :
    (xs ys : List Check) → blockers (xs ++ ys) ≡ 0 → (blockers xs ≡ 0) × (blockers ys ≡ 0)
none_left xs ys h =
    (omega (arith, blockers-append xs ys, h), omega (arith, blockers-append xs ys, h))

pub rest_left : (c : Check) (cs : List Check) → blockers (c ∷ cs) ≡ 0 → blockers cs ≡ 0
unfolding blockers
rest_left c cs = go c.status
  where
    go : (s : Status) → elim s [ fail ↦ 1 + blockers cs | _ ↦ blockers cs ] ≡ 0 → blockers cs ≡ 0
    go pass h = h
    go warn h = h
    go fail h = omega (arith, h)

-- A verdict is good where its test has failed.
pub verdict_good :
    (bad : Bool) {F : Type 0} (s : String) (other : Bool × String)
    → (bad ≡ false → other.0 ≡ true → F)
    → (if◌then◌else◌ {A = Bool × String} bad (false, s) other).0 ≡ true
    → F
verdict_good true s other h e = cc
verdict_good false s other h e = h refl e

-- Where the checks find nothing that blocks, the fact holds.
abbrev pub Sound : (World → Type 0) → Action (List Check) → Type 0 → Type 0
Sound I a F = Triple I a (λ cs v. I v × (blockers cs ≡ 0 → F)) (λ _ v. Unit)

pub gather-Sound :
    {A : Type 0} {I : World → Type 0} (F : A → Type 0) (f : A → Action (List Check))
    → ((x : A) → Sound I (f x) (F x))
    → (xs : List A) → Sound I (gather xs f) (All F xs)
unfolding gather
gather-Sound F f h [] = Triple-pure [] (λ v k. (k, λ _. tt))
gather-Sound F f h (x ∷ xs) = Triple-bind (h x) λ here. Triple-given λ first.
    Triple-bind (gather-Sound F f h xs) λ rest. Triple-given λ others.
      Triple-pure (here ++ rest)
        (λ v k. (k, λ z. let (a, b) = none_left here rest z in (first a, others b)))
