-- ===== src/Shared/Mac.antt =====
-- `MacAddress::new` of shared/src/ticket.rs, on the bytes of the text. Letters are changed only in a
-- text that has passed the checks, so that it is ASCII.
pub mod Canonical
use infovulcan.Common.{
  ℕ, zero, suc, ◌+◌, ◌-◌, ◌*◌, ◌/◌, ◌%◌, ◌^◌, ◌≤◌, ◌<◌, ◌≡◌, refl, sym, ap, ◌∙◌, subst, ◌≢◌, ◌↔◌,
  ◌⊎◌, inl, inr, Bool, true, false, not, ◌&&◌, ◌||◌, Option, none, some, List, [], ◌∷◌, ◌++◌, map,
  arith, ltb, leb, ◌==◌, if◌then◌else◌, ltb→lt, lt→ltb, leb→le, le→leb, ==_iff, tests, Bool-cases,
  Option-cases, length, length-append, take, drop, replicate, filter, In, In-filter, of_In-filter,
  All, All-In, Bytes, ascii, beq, beq_refl, eq_of_beq, starts_with, starts_with-append, blt, ble,
  blt_irrefl, blt_trans, blt_total, Error, not_found, corrupt, Result, ok, err, or_err,
  Result-cases,
}
use infovulcan.Shared.Ticket.{MacAddress}

-- `replace('-', ":")`, on one byte.
abbrev pub colon : ℕ → ℕ
colon c = if c == 45 then 58 else c

-- `to_uppercase`, on one ASCII byte.
abbrev pub upper : ℕ → ℕ
upper c = if leb 97 c && leb c 122 then c - 32 else c

abbrev pub is_ascii_hexdigit : ℕ → Bool
is_ascii_hexdigit c = (leb 48 c && leb c 57) || (leb 65 c && leb c 70) || (leb 97 c && leb c 102)

abbrev pub extend : ℕ → List Bytes → List Bytes
extend c [] = (c ∷ []) ∷ []
extend c (part ∷ parts) = (c ∷ part) ∷ parts

-- `split(':')`
unfoldable pub split : Bytes → List Bytes
split [] = [] ∷ []
split (c ∷ s) = let rest = split s in if c == 58 then [] ∷ rest else extend c rest

unfoldable pub all_hex : Bytes → Bool
all_hex [] = true
all_hex (c ∷ s) = is_ascii_hexdigit c && all_hex s

unfoldable pub parts_pass : List Bytes → Bool
parts_pass [] = true
parts_pass (part ∷ parts) = length part == 2 && all_hex part && parts_pass parts

unfoldable pub new_mac : Bytes → Option MacAddress
new_mac mac =
    let normalized = map colon mac in
    let parts = split normalized in
    if length parts == 6 && parts_pass parts
    then some (record { as_str = map upper normalized })
    else none
