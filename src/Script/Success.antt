-- ===== src/Script/Success.antt =====
-- What is known of the parts of a fallible computation that has succeeded.
use see_size.Base.{◌≡◌, refl, Bool, true, false, Option, none, some}
use see_size.Script.{Result, ok, err, Exc}
use see_size.Script.Checked.{◌>>=◌, ◌>>◌, refuse_if, or_refuse}

pub bind-ok :
    {A B : Type 0} (r : Result A) (f : A → Result B) {b : B}
    → (r >>= f) ≡ ok b
    → (a : A) × (r ≡ ok a) × (f a ≡ ok b)
bind-ok (ok a) f h = (a, refl, h)
bind-ok (err e) f h = cc

pub then-ok :
    {B : Type 0} (r : Result (Unit {0})) (k : Result B) {b : B}
    → (r >> k) ≡ ok b
    → (r ≡ ok tt) × (k ≡ ok b)
then-ok (ok a) k h = (refl, h)
then-ok (err e) k h = cc

pub refuse_if-ok : (b : Bool) (e : Exc) → refuse_if b e ≡ ok tt → b ≡ false
refuse_if-ok true e h = cc
refuse_if-ok false e h = refl

pub or_refuse-ok : {A : Type 0} (o : Option A) (e : Exc) {a : A} → or_refuse o e ≡ ok a → o ≡ some a
or_refuse-ok none e h = cc
or_refuse-ok (some a) e h = cc

pub ok-injective : {A : Type 0} {a b : A} → ◌≡◌ {A = Result A} (ok a) (ok b) → a ≡ b
ok-injective h = cc
