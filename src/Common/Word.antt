-- ===== src/Common/Word.antt =====
-- `u64::to_be_bytes` and `u64::from_be_bytes`.
use Prim.Native.Nat.{ℕ, ◌+◌, ◌*◌, ◌/◌, ◌%◌, ◌^◌, ◌<◌}
use mathlib.Core.Path.{◌≡◌, refl, sym, ap, ◌∙◌}
use mathlib.Core.List.{[], ◌∷◌}
use mathlib.Core.Option.{Option, none, some}
use native.Mathlib.Omega.{arith}
use infovulcan.Common.ByteString.{Bytes, beq, beq_refl, eq_of_beq, blt}
use infovulcan.Common.Lists.{length, All}
use infovulcan.Common.Tests.{◌==◌, ltb}

unfoldable pub to_be_bytes : ℕ → Bytes
to_be_bytes n =
    n / 0x100000000000000 % 256
    ∷ n / 0x1000000000000 % 256
    ∷ n / 0x10000000000 % 256
    ∷ n / 0x100000000 % 256
    ∷ n / 0x1000000 % 256
    ∷ n / 0x10000 % 256
    ∷ n / 0x100 % 256
    ∷ n % 256
    ∷ []

abbrev horner : ℕ → Bytes → ℕ
horner acc [] = acc
horner acc (d ∷ ds) = horner (acc * 256 + d) ds

-- `try_into` to `[u8; 8]` fails on any other length.
unfoldable pub from_be_bytes : Bytes → Option ℕ
from_be_bytes (a ∷ b ∷ c ∷ d ∷ e ∷ f ∷ g ∷ h ∷ []) =
    some (horner 0 (a ∷ b ∷ c ∷ d ∷ e ∷ f ∷ g ∷ h ∷ []))
from_be_bytes _ = none

pub from-to_be_bytes : (n : ℕ) → n < 2 ^ 64 → from_be_bytes (to_be_bytes n) ≡ some n
unfolding from_be_bytes to_be_bytes
from-to_be_bytes n h = ground arith

pub to_be_bytes-injective :
    (m n : ℕ) → m < 2 ^ 64 → n < 2 ^ 64 → to_be_bytes m ≡ to_be_bytes n → m ≡ n
to_be_bytes-injective m n h k e =
    let p : some m ≡ some n =
      sym (from-to_be_bytes m h) ∙ ap from_be_bytes e ∙ from-to_be_bytes n k in
    ground arith

-- Keys are equal exactly if the numbers are.
pub beq-to_be_bytes :
    (m n : ℕ) → m < 2 ^ 64 → n < 2 ^ 64 → beq (to_be_bytes m) (to_be_bytes n) ≡ (m == n)
beq-to_be_bytes m n h k = ground (
  arith,
  eq_of_beq (to_be_bytes m) (to_be_bytes n),
  to_be_bytes-injective m n h k,
  beq_refl (to_be_bytes m),
)

abbrev AreBytes : Bytes → Type 0
AreBytes xs = All (λ d. d < 256) xs

horner_mono :
    (xs ys : Bytes) (a c : ℕ)
    → length xs ≡ length ys
    → AreBytes xs
    → AreBytes ys
    → a < c
    → horner a xs < horner c ys
horner_mono [] [] a c e h k l = l
horner_mono [] (y ∷ ys) a c e h k l = omega (arith, e)
horner_mono (x ∷ xs) [] a c e h k l = omega (arith, e)
horner_mono (x ∷ xs) (y ∷ ys) a c e h k l =
    horner_mono xs ys (a * 256 + x) (c * 256 + y) (omega (arith, e)) h.1 k.1
      (omega (arith, h.0, k.0, l))

blt-horner :
    (xs ys : Bytes) (a : ℕ)
    → length xs ≡ length ys
    → AreBytes xs
    → AreBytes ys
    → blt xs ys ≡ ltb (horner a xs) (horner a ys)
unfolding blt
blt-horner [] [] a e h k = ground arith
blt-horner [] (y ∷ ys) a e h k = absurd (omega (arith, e))
blt-horner (x ∷ xs) [] a e h k = absurd (omega (arith, e))
blt-horner (x ∷ xs) (y ∷ ys) a e h k = ground (
  arith,
  e,
  h.0,
  k.0,
  blt-horner xs ys (a * 256 + x) (omega (arith, e)) h.1 k.1,
  horner_mono xs ys (a * 256 + x) (a * 256 + y) (omega (arith, e)) h.1 k.1,
  horner_mono ys xs (a * 256 + y) (a * 256 + x) (omega (arith, e)) k.1 h.1,
)

horner-to_be_bytes : (n : ℕ) → n < 2 ^ 64 → horner 0 (to_be_bytes n) ≡ n
unfolding to_be_bytes
horner-to_be_bytes n h = omega arith

to_be_bytes-AreBytes : (n : ℕ) → AreBytes (to_be_bytes n)
unfolding to_be_bytes
to_be_bytes-AreBytes n = ground arith

length_eq : (m n : ℕ) → length (to_be_bytes m) ≡ length (to_be_bytes n)
unfolding to_be_bytes
length_eq m n = refl

-- Keys are ordered as the numbers are.
pub blt-to_be_bytes :
    (m n : ℕ) → m < 2 ^ 64 → n < 2 ^ 64 → blt (to_be_bytes m) (to_be_bytes n) ≡ ltb m n
blt-to_be_bytes m n h k = ground (
  arith,
  blt-horner (to_be_bytes m) (to_be_bytes n) 0 (length_eq m n) (to_be_bytes-AreBytes m)
      (to_be_bytes-AreBytes n),
  horner-to_be_bytes m h,
  horner-to_be_bytes n k,
)
