-- ===== src/Shared/Codes/RoundTrip.antt =====
-- Bytes and the enums of shared/src/ticket.rs, there and back.
use infovulcan.Common.{ℕ, ◌<◌, ◌≡◌, ◌⊎◌, arith}
use infovulcan.Shared.Codes.{
  Symptom, TicketPriority, Resolution, symptom_as_u8, symptom_from_u8, priority_as_u8,
  priority_from_u8, resolution_as_u8, resolution_from_u8,
}

symptom_lem : (s : Symptom) → (symptom_from_u8 (symptom_as_u8 s) ≡ s) × (symptom_as_u8 s < 256)
unfolding symptom_from_u8 symptom_as_u8
symptom_lem s = ground arith

priority_lem :
    (p : TicketPriority) → (priority_from_u8 (priority_as_u8 p) ≡ p) × (priority_as_u8 p < 256)
unfolding priority_from_u8 priority_as_u8
priority_lem p = ground arith

resolution_lem :
    (r : Resolution) → (resolution_from_u8 (resolution_as_u8 r) ≡ r) × (resolution_as_u8 r < 256)
unfolding resolution_from_u8 resolution_as_u8
resolution_lem r = ground arith

symptom_byte :
    (n : ℕ) → (symptom_as_u8 (symptom_from_u8 n) ≡ n) ⊎ (symptom_from_u8 n ≡ Symptom.unknown)
unfolding symptom_from_u8 symptom_as_u8
symptom_byte n = ground arith

priority_byte :
    (n : ℕ)
    → (priority_as_u8 (priority_from_u8 n) ≡ n) ⊎ (priority_from_u8 n ≡ TicketPriority.unknown)
unfolding priority_from_u8 priority_as_u8
priority_byte n = ground arith

resolution_byte :
    (n : ℕ)
    → (resolution_as_u8 (resolution_from_u8 n) ≡ n) ⊎ (resolution_from_u8 n ≡ Resolution.none)
unfolding resolution_from_u8 resolution_as_u8
resolution_byte n = ground arith

-- Every discriminant of a symptom, a priority or a resolution is a byte and is read back as the
-- value it came from; a number that is no discriminant is read as the default (an unknown symptom,
-- an unknown priority, no resolution).
pub as_u8-from_u8 :
    ((s : Symptom) → (symptom_from_u8 (symptom_as_u8 s) ≡ s) × (symptom_as_u8 s < 256))
    × ((p : TicketPriority) → (priority_from_u8 (priority_as_u8 p) ≡ p) × (priority_as_u8 p < 256))
    × ((r : Resolution)
        → (resolution_from_u8 (resolution_as_u8 r) ≡ r) × (resolution_as_u8 r < 256))
    × ((n : ℕ)
        → ((symptom_as_u8 (symptom_from_u8 n) ≡ n) ⊎ (symptom_from_u8 n ≡ Symptom.unknown))
          × ((priority_as_u8 (priority_from_u8 n) ≡ n)
              ⊎ (priority_from_u8 n ≡ TicketPriority.unknown))
          × ((resolution_as_u8 (resolution_from_u8 n) ≡ n)
              ⊎ (resolution_from_u8 n ≡ Resolution.none)))
as_u8-from_u8 = (
  symptom_lem,
  priority_lem,
  resolution_lem,
  λ n. (symptom_byte n, priority_byte n, resolution_byte n),
)
