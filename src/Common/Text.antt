-- ===== src/Common/Text.antt =====
-- `str::trim` and `str::is_empty` on the bytes of a UTF-8 string.
use Prim.Native.Nat.{ℕ}
use mathlib.Core.Bool.{Bool, true, false, ◌&&◌, ◌||◌}
use mathlib.Core.List.{List, [], ◌∷◌, ◌++◌}
use infovulcan.Common.Tests.{leb, if◌then◌else◌}
use infovulcan.Common.ByteString.{Bytes, beq}

abbrev pub is_empty {ℓ} : {A : Type ℓ} → List A → Bool
is_empty [] = true
is_empty (x ∷ xs) = false

-- Whether a group of bytes starts with a continuation byte.
abbrev continues : Bytes → Bool
continues [] = false
continues (x ∷ xs) = leb 128 x && leb x 191

abbrev cons_char : ℕ → List Bytes → List Bytes
cons_char x [] = (x ∷ []) ∷ []
cons_char x (c ∷ cs) = if continues c then (x ∷ c) ∷ cs else (x ∷ []) ∷ c ∷ cs

-- The characters, each as its bytes.
unfoldable pub chars : Bytes → List Bytes
chars [] = []
chars (x ∷ xs) = cons_char x (chars xs)

-- `char::is_whitespace`: the property White_Space.
unfoldable pub is_whitespace : Bytes → Bool
is_whitespace [] = false
is_whitespace (x ∷ []) = (leb 9 x && leb x 13) || leb 32 x && leb x 32
is_whitespace (x ∷ y ∷ []) =
    beq (x ∷ y ∷ []) (0xC2 ∷ 0x85 ∷ []) || beq (x ∷ y ∷ []) (0xC2 ∷ 0xA0 ∷ [])
is_whitespace (x ∷ y ∷ z ∷ []) =
    beq (x ∷ y ∷ z ∷ []) (0xE1 ∷ 0x9A ∷ 0x80 ∷ [])
    || (beq (x ∷ y ∷ []) (0xE2 ∷ 0x80 ∷ []) && leb 0x80 z && leb z 0x8A)
    || beq (x ∷ y ∷ z ∷ []) (0xE2 ∷ 0x80 ∷ 0xA8 ∷ [])
    || beq (x ∷ y ∷ z ∷ []) (0xE2 ∷ 0x80 ∷ 0xA9 ∷ [])
    || beq (x ∷ y ∷ z ∷ []) (0xE2 ∷ 0x80 ∷ 0xAF ∷ [])
    || beq (x ∷ y ∷ z ∷ []) (0xE2 ∷ 0x81 ∷ 0x9F ∷ [])
    || beq (x ∷ y ∷ z ∷ []) (0xE3 ∷ 0x80 ∷ 0x80 ∷ [])
is_whitespace (x ∷ y ∷ z ∷ w ∷ rest) = false

unfoldable pub trim_start : List Bytes → List Bytes
trim_start [] = []
trim_start (c ∷ cs) = let rest = trim_start cs in if is_whitespace c then rest else c ∷ cs

unfoldable pub trim_end : List Bytes → List Bytes
trim_end [] = []
trim_end (c ∷ cs) =
    let rest = trim_end cs in if is_empty rest && is_whitespace c then [] else c ∷ rest

unfoldable pub concat : List Bytes → Bytes
concat [] = []
concat (c ∷ cs) = c ++ concat cs

unfoldable pub trim : Bytes → Bytes
trim s = concat (trim_end (trim_start (chars s)))
