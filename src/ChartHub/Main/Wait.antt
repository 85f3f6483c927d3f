-- ===== src/ChartHub/Main/Wait.antt =====
-- The wait for the background services ends within its fuel.
use see_size.Base.{
  ℕ, zero, suc, ◌+◌, ◌*◌, ◌≤◌, ◌<◌, String, ◌≡◌, refl, Bool, true, false, arith, if◌then◌else◌, ltb,
  ap, subst, ◌==◌, nat_eq,
}
use see_size.Script.{Machine, World, Exc, process_error, Result, ok, err, Action, pure, ◌>>=◌}
use see_size.Script.Files.{spawn, run_checked}
use see_size.Script.Rules.{
  Outcome, Triple, Triple-bind, Triple-raise_if, Keeps-if, Keeps-pure, Keeps-raise, lift-Keeps,
}
use see_size.Script.Frame.{change_lem}
use see_size.ChartHub.{Web}
use see_size.ChartHub.Main.{busy, user_service, state, sleep, busy_round, wait}

-- From a state with `P`, both end in the same way.
record Same {A : Type 0} (P : World → Type 0) (a b : Action A) : Type 0 where
  agree : (w : World) → P w → a w ≡ b w

Same-bind :
    {A B : Type 0} {P : World → Type 0} {m : Action A} {f g : A → Action B} {Q : A → World → Type 0}
    {E : Exc → World → Type 0}
    → Triple P m Q E
    → ((a : A) → Same (Q a) (f a) (g a))
    → Same P (m >>= f) (m >>= g)
unfolding ◌>>=◌
Same-bind {A} {B} {m} {f} {g} {Q} {E} t h = record { agree = λ w p. go (m w).0 (m w).1 (t.run w p) }
  where
    go :
        (r : Result A) (w : World)
        → Outcome Q E (r, w)
        → ◌≡◌ {A = Result B × World}
            (elim r [ ok a ↦ f a w | err e ↦ (err e, w) ])
            (elim r [ ok a ↦ g a w | err e ↦ (err e, w) ])
    go (ok a) w k = (h a).agree w k
    go (err e) w k = refl

Same-if :
    {P : World → Type 0} (c : Bool) {a a' : Action (Unit {0})} (b : Action (Unit {0}))
    → Same P a a'
    → Same P (if c then a else b) (if c then a' else b)
Same-if true b h = h
Same-if false b h = record { agree = λ w p. refl }

-- It is the tick `t`.
abbrev At : ℕ → World → Type 0
At t w = w.tick ≡ t

module _ (m : Machine) (web : Web) (deadline : ℕ) (unit : String) where
  state-At : (t : ℕ) → Triple (At t) (state m web unit) (λ _. At (suc t)) (λ _. At (suc t))
  unfolding state user_service run_checked spawn
  state-At t =
      Triple-bind
        (Triple-bind {Q = λ _. At (suc t)} (record { run = λ w k. ap (λ (i : ℕ). suc i) k })
          λ r.
            Triple-bind (lift-Keeps r.ending)
              λ code. Keeps-if (code == 0) (Keeps-pure r.stdout) (Keeps-raise process_error))
        λ shown. Keeps-pure _

  -- A round after the deadline is the last; one before it takes two ticks.
  round-Same :
      (t : ℕ) {a b : Action (Unit {0})}
      → (ltb deadline (web.monotonic (suc t)) ≡ false → Same (At (suc (suc t))) a b)
      → Same (At (suc t)) (busy_round m web deadline a) (busy_round m web deadline b)
  unfolding busy_round sleep
  round-Same t h =
      Same-bind {Q = λ late w. At (suc t) w × (late ≡ ltb deadline (web.monotonic (suc t)))}
        {E = λ _ w. Unit}
        (record { run = λ w k. (k, ap (λ (i : ℕ). ltb deadline (web.monotonic i)) k) })
        λ late.
          Same-bind {Q = λ _ w. At (suc t) w × (ltb deadline (web.monotonic (suc t)) ≡ false)}
            {E = λ _ w. Unit}
            (Triple-raise_if late _ (λ w k _. tt) (λ w k good. (k.0, ground arith)))
            λ _.
              Same-bind
                {Q = λ _ w. At (suc (suc t)) w × (ltb deadline (web.monotonic (suc t)) ≡ false)}
                {E = λ _ w. Unit}
                (change_lem m (λ fs. fs) (λ w k. (ap (λ (i : ℕ). suc i) k.0, k.1)) (λ w k. tt))
                λ _. record { agree = λ w k. (h k.1).agree w k.0 }

  wait-Same :
      (fuel r t : ℕ)
      → r < fuel
      → deadline < web.monotonic (suc (t + 2 * r))
      → Same (At t) (wait m web fuel deadline unit) (wait m web (suc r) deadline unit)
  unfolding wait
  wait-Same zero r t more late = absurd (omega (arith, more))
  wait-Same (suc fuel) zero t more late = Same-bind (state-At t) λ now.
      Same-if (busy now) (pure tt) (
        round-Same t λ early.
          absurd (ground (arith, subst (λ (i : ℕ). deadline < web.monotonic i) first late, early)))
    where
      first : suc (t + 2 * 0) ≡ suc t
      first = omega arith
  wait-Same (suc fuel) (suc r) t more late = Same-bind (state-At t) λ now.
      Same-if (busy now) (pure tt) (
        round-Same t λ early.
          wait-Same fuel r (suc (suc t)) (omega (arith, more))
            (subst (λ (i : ℕ). deadline < web.monotonic i) (later r) late))
    where
      later : (r : ℕ) → suc (t + 2 * suc r) ≡ suc (suc (suc t) + 2 * r)
      later r = omega arith

-- The fuel of the wait for a service is enough: with more of it the wait ends in the same way, for
-- a deadline at most 120 seconds away, where every round takes at least the second that it sleeps.
pub wait_ends :
    (m : Machine) (web : Web) (deadline fuel : ℕ) (unit : String) (w : World)
    → 122 ≤ fuel
    → deadline ≤ web.monotonic w.tick + 120000000000
    → ((k : ℕ) → web.monotonic w.tick + k * 1000000000 ≤ web.monotonic (suc (w.tick + 2 * k)))
    → wait m web fuel deadline unit w ≡ wait m web 122 deadline unit w
wait_ends m web deadline fuel unit w enough near seconds =
    (wait-Same m web deadline unit fuel 121 w.tick (omega (arith, enough))
        (omega (arith, near, seconds 121))).agree
      w refl
