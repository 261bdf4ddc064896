-- ===== src/Common/Action.antt =====
-- A call that changes a state and may fail. What was written before a failure stays written.
use mathlib.Core.Path.{◌≡◌, refl}
use native.Mathlib.Omega.{arith}
use infovulcan.Common.Outcome.{Outcome, done, failed}

abbrev pub Action {ℓ} : Type ℓ → Type ℓ → Type ℓ → Type ℓ
Action E S A = S → Outcome E A × S

module _ {ℓ} {E S A : Type ℓ} where
  abbrev pub pure : A → Action E S A
  pure a s = (done a, s)

  abbrev pub lift : Outcome E A → Action E S A
  lift r s = (r, s)

  abbrev pub gets : (S → Outcome E A) → Action E S A
  gets f s = (f s, s)

module _ {ℓ} {E S A B : Type ℓ} where
  abbrev pub continue : Outcome E A → (A → Action E S B) → Action E S B
  continue (done a) f s = f a s
  continue (failed e) f s = (failed e, s)

  infixl 5 ◌>>=◌
  abbrev pub ◌>>=◌ : Action E S A → (A → Action E S B) → Action E S B
  ◌>>=◌ m f s = continue (m s).0 f (m s).1

  pub continue-done :
      (r : Outcome E A) (f : A → Action E S B) (s : S) (x : B)
      → (continue r f s).0 ≡ done x
      → (a : A) × (r ≡ done a) × (continue r f s ≡ f a s) × ((f a s).0 ≡ done x)
  continue-done (done a) f s x h = (a, refl, refl, h)
  continue-done (failed e) f s x h = absurd (ground (arith, h))
