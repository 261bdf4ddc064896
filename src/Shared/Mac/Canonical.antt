-- ===== src/Shared/Mac/Canonical.antt =====
-- The canonical form of an address in shared/src/ticket.rs.
use infovulcan.Common.{
  ℕ, ◌≡◌, refl, sym, ap, ◌∙◌, inl, inr, some, List, [], ◌∷◌, map, arith, ◌==◌, Bool-cases, length,
  Bytes,
}
use infovulcan.Shared.Ticket.{MacAddress}
use infovulcan.Shared.Mac.{colon, upper, extend, split, all_hex, parts_pass, new_mac}

colon-upper : (s : Bytes) → map colon (map upper (map colon s)) ≡ map upper (map colon s)
colon-upper [] = refl
colon-upper (c ∷ s) = ground (arith, colon-upper s)

upper-upper : (s : Bytes) → map upper (map upper s) ≡ map upper s
upper-upper [] = refl
upper-upper (c ∷ s) = ground (arith, upper-upper s)

extend-upper :
    (c : ℕ) (parts : List Bytes)
    → extend (upper c) (map (map upper) parts) ≡ map (map upper) (extend c parts)
extend-upper c [] = refl
extend-upper c (part ∷ parts) = refl

upper_colon : (c : ℕ) → (upper c == 58) ≡ (c == 58)
upper_colon c = ground arith

split-upper : (s : Bytes) → split (map upper s) ≡ map (map upper) (split s)
unfolding split
split-upper [] = refl
split-upper (c ∷ s) = elim (Bool-cases (c == 58)) [
  | inl e ↦ rw (upper_colon c, e) (ap (λ parts. [] ∷ parts) (split-upper s))
  | inr e ↦ rw (upper_colon c, e) (ap (extend (upper c)) (split-upper s) ∙ extend-upper c (split s))
]

length-map : {A B : Type 0} (f : A → B) (xs : List A) → length (map f xs) ≡ length xs
length-map f [] = refl
length-map f (x ∷ xs) = omega (arith, length-map f xs)

all_hex-upper : (s : Bytes) → all_hex (map upper s) ≡ all_hex s
unfolding all_hex
all_hex-upper [] = refl
all_hex-upper (c ∷ s) = ground (arith, all_hex-upper s)

parts_pass-upper : (parts : List Bytes) → parts_pass (map (map upper) parts) ≡ parts_pass parts
unfolding parts_pass
parts_pass-upper [] = refl
parts_pass-upper (part ∷ parts) =
    rw (length-map upper part, all_hex-upper part, parts_pass-upper parts) refl

same_address : (mac : Bytes) → new_mac (map upper (map colon mac)) ≡ new_mac mac
unfolding new_mac
same_address mac =
    rw
      (
        colon-upper mac,
        split-upper (map colon mac),
        length-map (map upper) (split (map colon mac)),
        parts_pass-upper (split (map colon mac)),
        upper-upper (map colon mac),
      )
      refl

text_of_accepted :
    (mac : Bytes) (a : MacAddress) → new_mac mac ≡ some a → map upper (map colon mac) ≡ a.as_str
unfolding new_mac
text_of_accepted mac a h = ground (arith, h)

-- Spelling an address with dashes or colons, in small or capital letters, makes no difference: a
-- text and its capitals with colons are both accepted, as the same address, or both refused. So the
-- text of an accepted address is accepted again, as that address.
pub new_mac-canonical :
    ((mac : Bytes) → new_mac (map upper (map colon mac)) ≡ new_mac mac)
    × ((mac : Bytes) (a : MacAddress) → new_mac mac ≡ some a → new_mac a.as_str ≡ some a)
new_mac-canonical =
    (same_address, λ mac a h. ap new_mac (sym (text_of_accepted mac a h)) ∙ same_address mac ∙ h)
