-- ===== src/Common/Outcome.antt =====
-- `Result<A, E>` for the error types of the services, with the `?` operator as a bind.
use mathlib.Core.Option.{Option, none, some}
use mathlib.Core.Path.{◌≡◌, refl, ap}
use mathlib.Core.Logic.{◌⊎◌, inl, inr}
use mathlib.Core.Bool.{Bool, true, false}
use native.Mathlib.Omega.{arith}

pub data Outcome {ℓ κ} (E : Type ℓ) (A : Type κ) : Type (ℓ ⊔ κ) where
  done : A → Outcome E A
  failed : E → Outcome E A

infixl 5 ◌>>=◌
abbrev pub ◌>>=◌ {ℓ κ μ} :
    {E : Type ℓ} {A : Type κ} {B : Type μ} → Outcome E A → (A → Outcome E B) → Outcome E B
done a >>= f = f a
failed e >>= f = failed e

-- `Option::ok_or`.
abbrev pub ok_or {ℓ κ} : {E : Type ℓ} {A : Type κ} → Option A → E → Outcome E A
ok_or none e = failed e
ok_or (some a) e = done a

-- An early return of an error unless the test holds.
abbrev pub ensure {ℓ} : {E : Type ℓ} → Bool → E → Outcome E (Unit {0})
ensure true e = done tt
ensure false e = failed e

-- `Result::map_err`.
abbrev pub map_err {ℓ κ μ} :
    {E : Type ℓ} {F : Type κ} {A : Type μ} → (E → F) → Outcome E A → Outcome F A
map_err f (done a) = done a
map_err f (failed e) = failed (f e)

pub Outcome-cases {ℓ κ} :
    {E : Type ℓ} {A : Type κ} (r : Outcome E A)
    → ((a : A) × (r ≡ done a)) ⊎ ((e : E) × (r ≡ failed e))
Outcome-cases (done a) = inl (a, refl)
Outcome-cases (failed e) = inr (e, refl)

pub >>=-done :
    {E A B : Type 0} (m : Outcome E A) (f : A → Outcome E B) (x : B)
    → (m >>= f) ≡ done x
    → (a : A) × (m ≡ done a) × (f a ≡ done x)
>>=-done (done a) f x h = (a, refl, h)
>>=-done (failed e) f x h = absurd (ground (arith, h))

pub ensure-done :
    {E B : Type 0} (t : Bool) (e : E) (f : Unit {0} → Outcome E B) (x : B)
    → (ensure t e >>= f) ≡ done x
    → (t ≡ true) × (f tt ≡ done x)
ensure-done true e f x h = (refl, h)
ensure-done false e f x h = absurd (ground (arith, h))

pub ok_or-done :
    {E A B : Type 0} (o : Option A) (e : E) (f : A → Outcome E B) (x : B)
    → (ok_or o e >>= f) ≡ done x
    → (a : A) × (o ≡ some a) × (f a ≡ done x)
ok_or-done none e f x h = absurd (ground (arith, h))
ok_or-done (some a) e f x h = (a, refl, h)

abbrev value_or {ℓ κ} : {E : Type ℓ} {A : Type κ} → A → Outcome E A → A
value_or x (done a) = a
value_or x (failed e) = x

pub done_inj {ℓ κ} :
    {E : Type ℓ} {A : Type κ} {x y : A} → ◌≡◌ {A = Outcome E A} (done x) (done y) → x ≡ y
done_inj {x = x} h = ap (value_or x) h

pub failed_ne {ℓ κ} :
    {E : Type ℓ} {A : Type κ} {e : E} {x : A} → ◌≡◌ {A = Outcome E A} (failed e) (done x) → ⊥
failed_ne h = ground (arith, h)
