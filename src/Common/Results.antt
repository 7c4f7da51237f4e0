-- ===== src/Common/Results.antt =====
-- Results of fallible code: a value or an error, and the chaining of such steps.
use matching_engine_benchmar.Common.Bools.{if◌then◌else◌}
use mathlib.Core.Bool.{Bool}
use mathlib.Core.Option.{Option, none, some}

pub data Result {ℓ κ} (E : Type ℓ) (A : Type κ) : Type (ℓ ⊔ κ) where
  ok : A → Result E A
  err : E → Result E A

infixl 5 ◌>>=◌
abbrev pub ◌>>=◌ {ℓ κ μ} :
    {E : Type ℓ} {A : Type κ} {B : Type μ} → Result E A → (A → Result E B) → Result E B
ok a >>= f = f a
err e >>= f = err e

-- The failure `e` where the option has no value.
abbrev pub or_fail {ℓ κ} : {E : Type ℓ} {A : Type κ} → Option A → E → Result E A
or_fail none e = err e
or_fail (some a) e = ok a

-- An early return of the failure `e` unless the test passes.
abbrev pub check {ℓ κ} : {E : Type ℓ} {A : Type κ} → Bool → E → Result E A → Result E A
check b e r = if b then r else err e

-- What holds of the value where there is one.
abbrev pub OnOk {ℓ κ μ} : {E : Type ℓ} {A : Type κ} → (A → Type μ) → Result E A → Type μ
OnOk P (ok a) = P a
OnOk P (err e) = Unit

pub OnOk-map {ℓ κ μ} :
    {E : Type ℓ} {A : Type κ} (P Q : A → Type μ) (r : Result E A)
    → ((a : A) → P a → Q a)
    → OnOk P r
    → OnOk Q r
OnOk-map P Q (ok a) f p = f a p
OnOk-map P Q (err e) f p = tt

pub OnOk-bind {ℓ κ μ} :
    {E : Type ℓ} {A : Type κ} (P Q : A → Type μ) (r : Result E A) (g : A → Result E A)
    → ((a : A) → P a → OnOk Q (g a))
    → OnOk P r
    → OnOk Q (r >>= g)
OnOk-bind P Q (ok a) g f p = f a p
OnOk-bind P Q (err e) g f p = tt
