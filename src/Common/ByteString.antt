-- ===== src/Common/ByteString.antt =====
-- Byte strings. A Rust `String`, `&[u8]` or `Vec<u8>` is the list of its bytes.
use Prim.Native.Nat.{ℕ}
use Prim.Native.Char.{code}
use Prim.Native.String.{String}
use mathlib.Core.Path.{◌≡◌, refl}
use mathlib.Core.Bool.{Bool, true, false, not, ◌&&◌, ◌||◌}
use mathlib.Core.List.{List, [], ◌∷◌, ◌++◌}
use native.Mathlib.Omega.{arith}
use infovulcan.Common.Tests.{ltb, ◌==◌}

abbrev pub Bytes : Type 0
Bytes = List ℕ

-- The bytes of an ASCII literal.
abbrev pub ascii : String → Bytes
ascii String.[] = []
ascii (String.◌∷◌ c s) = code c ∷ ascii s

unfoldable pub beq : Bytes → Bytes → Bool
beq [] [] = true
beq [] (y ∷ ys) = false
beq (x ∷ xs) [] = false
beq (x ∷ xs) (y ∷ ys) = x == y && beq xs ys

pub beq_refl : (xs : Bytes) → beq xs xs ≡ true
unfolding beq
beq_refl [] = refl
beq_refl (x ∷ xs) = ground (arith, beq_refl xs)

pub eq_of_beq : (xs ys : Bytes) → beq xs ys ≡ true → xs ≡ ys
unfolding beq
eq_of_beq [] [] h = refl
eq_of_beq [] (y ∷ ys) h = cc
eq_of_beq (x ∷ xs) [] h = cc
eq_of_beq (x ∷ xs) (y ∷ ys) h = ground (arith, eq_of_beq xs ys)

-- Whether the first list is a prefix of the second.
unfoldable pub starts_with : Bytes → Bytes → Bool
starts_with [] k = true
starts_with (p ∷ ps) [] = false
starts_with (p ∷ ps) (x ∷ xs) = p == x && starts_with ps xs

pub starts_with-append : (p k : Bytes) → starts_with p (p ++ k) ≡ true
unfolding starts_with
starts_with-append [] k = refl
starts_with-append (p ∷ ps) k = ground (arith, starts_with-append ps k)

-- The order of `[u8]`: lexicographic.
unfoldable pub blt : Bytes → Bytes → Bool
blt xs [] = false
blt [] (y ∷ ys) = true
blt (x ∷ xs) (y ∷ ys) = ltb x y || (x == y && blt xs ys)

abbrev pub ble : Bytes → Bytes → Bool
ble xs ys = not (blt ys xs)

pub blt_irrefl : (xs : Bytes) → blt xs xs ≡ false
unfolding blt
blt_irrefl [] = refl
blt_irrefl (x ∷ xs) = ground (arith, blt_irrefl xs)

pub blt_trans : (xs ys zs : Bytes) → blt xs ys ≡ true → blt ys zs ≡ true → blt xs zs ≡ true
unfolding blt
blt_trans xs [] zs h k = cc
blt_trans xs (y ∷ ys) [] h k = cc
blt_trans [] (y ∷ ys) (z ∷ zs) h k = refl
blt_trans (x ∷ xs) (y ∷ ys) (z ∷ zs) h k = ground (arith, blt_trans xs ys zs)

pub blt_total : (xs ys : Bytes) → blt xs ys ≡ false → beq xs ys ≡ false → blt ys xs ≡ true
unfolding blt beq
blt_total [] [] h k = cc
blt_total [] (y ∷ ys) h k = cc
blt_total (x ∷ xs) [] h k = refl
blt_total (x ∷ xs) (y ∷ ys) h k = ground (arith, blt_total xs ys)

pub blt_asymm : (xs ys : Bytes) → blt xs ys ≡ true → blt ys xs ≡ false
blt_asymm xs ys h = ground (arith, h, blt_trans xs ys xs, blt_irrefl xs)

pub ble_trans : (xs ys zs : Bytes) → blt ys xs ≡ false → blt zs ys ≡ false → blt zs xs ≡ false
ble_trans xs ys zs h k =
    ground (arith, h, k, eq_of_beq ys xs, blt_total ys xs h, blt_trans zs xs ys, beq_refl ys)
