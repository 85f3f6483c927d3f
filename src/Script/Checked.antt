-- ===== src/Script/Checked.antt =====
-- Pure functions that may raise, and their use inside an action.
use see_size.Base.{Bool, true, false, Option, none, some}
use see_size.Script.{Exc, Result, ok, err, Action}

-- `if test: raise e`
abbrev pub refuse_if : Bool → Exc → Result (Unit {0})
refuse_if true e = err e
refuse_if false e = ok tt

abbrev pub or_refuse {ℓ} : {A : Type ℓ} → Option A → Exc → Result A
or_refuse none e = err e
or_refuse (some a) e = ok a

abbrev pub lift : {A : Type 0} → Result A → Action A
lift r w = (r, w)

module _ {ℓ κ} {A : Type ℓ} {B : Type κ} where
  infixl 5 ◌>>=◌
  abbrev pub ◌>>=◌ : Result A → (A → Result B) → Result B
  ◌>>=◌ (err raised) next = err raised
  ◌>>=◌ (ok value) next = next value

infixl 5 ◌>>◌
abbrev pub ◌>>◌ {κ} : {B : Type κ} → Result (Unit {0}) → Result B → Result B
err raised >> next = err raised
ok done >> next = next
