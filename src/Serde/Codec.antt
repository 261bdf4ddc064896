-- ===== src/Serde/Codec.antt =====
-- Instances of the `serde_json` interface, for the tests: values written field by field, each with
-- what is needed to read it back. They show that the interface can be met; they are not JSON.
use infovulcan.Common.{
  zero, suc, List, ℕ, ◌≡◌, refl, ap, Bool, true, false, Option, none, some, [], ◌∷◌, ◌++◌, ◌==◌,
  if◌then◌else◌, length, take, drop, Bytes,
}
use mathlib.Core.List.{append_assoc, append-nil}
use infovulcan.Common.Int.{ℤ, pos, negsuc}
use infovulcan.Serde.{Serde}

pub record Codec (A : Type 0) : Type 0 where
  pub enc : A → Bytes
  pub dec : Bytes → Option (A × Bytes)
  pub dec-enc : (a : A) (rest : Bytes) → dec (enc a ++ rest) ≡ some (a, rest)

pub enc_nat : ℕ → Bytes
enc_nat n = n ∷ []

pub dec_nat : Bytes → Option (ℕ × Bytes)
dec_nat [] = none
dec_nat (n ∷ rest) = some (n, rest)

pub enc_bytes : Bytes → Bytes
enc_bytes xs = length xs ∷ xs

pub dec_bytes : Bytes → Option (Bytes × Bytes)
dec_bytes [] = none
dec_bytes (n ∷ rest) = some (take n rest, drop n rest)

pub dec-enc_nat : (n : ℕ) (rest : Bytes) → dec_nat (enc_nat n ++ rest) ≡ some (n, rest)
unfolding dec_nat enc_nat
dec-enc_nat n rest = refl

pub take-append : (xs ys : Bytes) → take (length xs) (xs ++ ys) ≡ xs
take-append [] ys = refl
take-append (x ∷ xs) ys = ap (λ l. x ∷ l) (take-append xs ys)

pub drop-append : (xs ys : Bytes) → drop (length xs) (xs ++ ys) ≡ ys
drop-append [] ys = refl
drop-append (x ∷ xs) ys = drop-append xs ys

pub dec-enc_bytes : (xs rest : Bytes) → dec_bytes (enc_bytes xs ++ rest) ≡ some (xs, rest)
unfolding dec_bytes enc_bytes
dec-enc_bytes xs rest = rw (take-append xs rest, drop-append xs rest)

unfoldable pub nat_codec : Codec ℕ
unfolding enc_nat dec_nat dec-enc_nat
nat_codec = record { enc = enc_nat; dec = dec_nat; dec-enc = dec-enc_nat }

unfoldable pub bytes_codec : Codec Bytes
unfolding enc_bytes dec_bytes dec-enc_bytes
bytes_codec = record { enc = enc_bytes; dec = dec_bytes; dec-enc = dec-enc_bytes }

-- A pair is written part by part.
module _ {A B : Type 0} (c : Codec A) (e : Codec B) where
  pub dec_second : Option (A × Bytes) → Option ((A × B) × Bytes)
  dec_second none = none
  dec_second (some (a, rest)) = elim (e.dec rest) [
    | none ↦ none
    | some (x, rest') ↦ some ((a, x), rest')
  ]

  pub dec-enc_pair :
      (p : A × B) (rest : Bytes)
      → dec_second (c.dec ((c.enc p.0 ++ e.enc p.1) ++ rest)) ≡ some (p, rest)
  unfolding dec_second
  dec-enc_pair p rest =
      rw
        (
          append_assoc (c.enc p.0) (e.enc p.1) rest,
          c.dec-enc p.0 (e.enc p.1 ++ rest),
          e.dec-enc p.1 rest,
          dec_second,
        )
        refl

  unfoldable pub pair_codec : Codec (A × B)
  unfolding dec_second dec-enc_pair
  pair_codec = record {
    enc = λ p. c.enc p.0 ++ e.enc p.1;
    dec = λ s. dec_second (c.dec s);
    dec-enc = dec-enc_pair;
  }

-- A type that is written as another one.
module _ {A B : Type 0} (c : Codec B) (f : A → B) (g : B → Option A)
    (h : (a : A) → g (f a) ≡ some a) where
  pub dec_via : Option (B × Bytes) → Option (A × Bytes)
  dec_via none = none
  dec_via (some (x, rest)) = elim (g x) [ none ↦ none | some a ↦ some (a, rest) ]

  pub dec-enc_via : (a : A) (rest : Bytes) → dec_via (c.dec (c.enc (f a) ++ rest)) ≡ some (a, rest)
  unfolding dec_via
  dec-enc_via a rest = rw (c.dec-enc (f a) rest, h a, dec_via) refl

  unfoldable pub via_codec : Codec A
  unfolding dec_via dec-enc_via
  via_codec = record { enc = λ a. c.enc (f a); dec = λ s. dec_via (c.dec s); dec-enc = dec-enc_via }

abbrev pub nat_of_bool : Bool → ℕ
nat_of_bool b = if b then 1 else 0

abbrev pub bool_of_nat : ℕ → Option Bool
bool_of_nat n = some (n == 1)

pub bool_back : (b : Bool) → bool_of_nat (nat_of_bool b) ≡ some b
bool_back true = refl
bool_back false = refl

unfoldable pub bool_codec : Codec Bool
bool_codec = via_codec nat_codec nat_of_bool bool_of_nat bool_back

abbrev pub pair_of_int : ℤ → ℕ × ℕ
pair_of_int (pos n) = (0, n)
pair_of_int (negsuc n) = (1, n)

abbrev pub int_of_pair : ℕ × ℕ → Option ℤ
int_of_pair p = some (if p.0 == 0 then pos p.1 else negsuc p.1)

pub int_back : (z : ℤ) → int_of_pair (pair_of_int z) ≡ some z
int_back (pos n) = refl
int_back (negsuc n) = refl

unfoldable pub int_codec : Codec ℤ
int_codec = via_codec (pair_codec nat_codec nat_codec) pair_of_int int_of_pair int_back

abbrev pub list_of_option : Option Bytes → ℕ × Bytes
list_of_option none = (0, [])
list_of_option (some x) = (1, x)

abbrev pub option_of_list : ℕ × Bytes → Option (Option Bytes)
option_of_list p = some (if p.0 == 0 then none else some p.1)

pub option_back : (o : Option Bytes) → option_of_list (list_of_option o) ≡ some o
option_back none = refl
option_back (some x) = refl

unfoldable pub option_codec : Codec (Option Bytes)
option_codec =
    via_codec (pair_codec nat_codec bytes_codec) list_of_option option_of_list option_back

-- A list is written as its length and its items.
module _ {A : Type 0} (c : Codec A) where
  pub enc_items : List A → Bytes
  enc_items [] = []
  enc_items (a ∷ as_) = c.enc a ++ enc_items as_

  pub dec_items : ℕ → Bytes → Option (List A × Bytes)
  dec_items zero s = some ([], s)
  dec_items (suc n) s = elim (c.dec s) [
    | none ↦ none
    | some (a, rest) ↦ elim (dec_items n rest) [
      | none ↦ none
      | some (as_, rest') ↦ some (a ∷ as_, rest')
    ]
  ]

  pub dec_list : Bytes → Option (List A × Bytes)
  dec_list [] = none
  dec_list (n ∷ rest) = dec_items n rest

  pub dec-enc_items :
      (as_ : List A) (rest : Bytes)
      → dec_items (length as_) (enc_items as_ ++ rest) ≡ some (as_, rest)
  unfolding dec_items enc_items
  dec-enc_items [] rest = refl
  dec-enc_items (a ∷ as_) rest =
      rw
        (
          append_assoc (c.enc a) (enc_items as_) rest,
          c.dec-enc a (enc_items as_ ++ rest),
          dec-enc_items as_ rest,
        )
        refl

  unfoldable pub list_codec : Codec (List A)
  unfolding dec_list
  list_codec = record {
    enc = λ as_. length as_ ∷ enc_items as_;
    dec = dec_list;
    dec-enc = dec-enc_items;
  }

module _ {A : Type 0} (c : Codec A) where
  pub whole : Option (A × Bytes) → Option A
  whole none = none
  whole (some (a, rest)) = some a

  pub whole-enc : (a : A) → whole (c.dec (c.enc a)) ≡ some a
  unfolding whole
  whole-enc a = rw (← append-nil (c.enc a), c.dec-enc a [], whole) refl

  unfoldable pub serde_of : Serde A
  unfolding whole whole-enc
  serde_of = record {
    to_vec = c.enc;
    from_slice = λ s. whole (c.dec s);
    from_slice-to_vec = whole-enc;
  }
