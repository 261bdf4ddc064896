-- ===== src/Honeypot.antt =====
-- The streams of the decoy service, honeypot/src/service.rs; an event is reported before each and
-- changes no answer.
mod Tests
use infovulcan.Common.{
  ℕ, zero, suc, ◌+◌, ◌-◌, ◌*◌, ◌/◌, ◌%◌, ◌^◌, ◌≤◌, ◌<◌, ◌≡◌, refl, sym, ap, ◌∙◌, subst, ◌≢◌, ◌↔◌,
  ◌⊎◌, inl, inr, Bool, true, false, not, ◌&&◌, ◌||◌, Option, none, some, List, [], ◌∷◌, ◌++◌, map,
  arith, ltb, leb, ◌==◌, if◌then◌else◌, ltb→lt, lt→ltb, leb→le, le→leb, ==_iff, tests, Bool-cases,
  Option-cases, length, length-append, take, drop, replicate, filter, In, In-filter, of_In-filter,
  All, All-In, Bytes, ascii, beq, beq_refl, eq_of_beq, starts_with, starts_with-append, blt, ble,
  blt_irrefl, blt_trans, blt_total, Error, not_found, corrupt, Result, ok, err, or_err,
  Result-cases,
}

-- `MAX_DOWNLOAD_MB`
abbrev pub max_download_mb : ℕ
max_download_mb = 8

-- `CHUNK_BYTES`
abbrev pub chunk_bytes : ℕ
chunk_bytes = 65536

abbrev min : ℕ → ℕ → ℕ
min a b = if leb a b then a else b

-- `size_mb.clamp(1, MAX_DOWNLOAD_MB)`
unfoldable pub clamped_mb : ℕ → ℕ
clamped_mb size_mb =
    if ltb size_mb 1 then 1 else if ltb max_download_mb size_mb then max_download_mb else size_mb

-- `step_by` from an offset on: so many chunks, each with its length.
unfoldable pub chunks_from : (offset steps total : ℕ) → List ℕ
chunks_from offset zero total = []
chunks_from offset (suc steps) total =
    min chunk_bytes (total - offset) ∷ chunks_from (offset + chunk_bytes) steps total

-- The lengths of the chunks of `download_backup`; every byte is 0x42.
unfoldable pub download_backup : (size_mb : ℕ) → List ℕ
download_backup size_mb =
    let total = clamped_mb size_mb * 1024 * 1024 in
    chunks_from 0 ((total + (chunk_bytes - 1)) / chunk_bytes) total

unfoldable pub sum : List ℕ → ℕ
sum [] = 0
sum (n ∷ ns) = n + sum ns

sum-chunks_from :
    (offset steps total : ℕ)
    → total ≤ offset + steps * 65536
    → sum (chunks_from offset steps total) ≡ total - offset
unfolding sum chunks_from
sum-chunks_from offset zero total h = omega arith
sum-chunks_from offset (suc steps) total h =
    let rec = sum-chunks_from (offset + 65536) steps total (omega arith) in grind arith

chunks_from-small : (offset steps total : ℕ) → All (λ n. n ≤ 65536) (chunks_from offset steps total)
unfolding chunks_from
chunks_from-small offset zero total = tt
chunks_from-small offset (suc steps) total =
    (ground arith, chunks_from-small (offset + 65536) steps total)

-- The size served for a size asked for, in MiB: at least 1, at most 8, and between them as asked.
abbrev pub Serves : (size_mb total : ℕ) → Type 0
Serves size_mb total =
    ((size_mb < 1) × (total ≡ 1048576))
    ⊎ ((1 ≤ size_mb) × (size_mb ≤ 8) × (total ≡ size_mb * 1048576))
    ⊎ ((8 < size_mb) × (total ≡ 8388608))

clamped_mb-Serves : (size_mb : ℕ) → Serves size_mb (clamped_mb size_mb * 1048576)
unfolding clamped_mb
clamped_mb-Serves size_mb = elim (Bool-cases (ltb size_mb 1)) [
  | inl small ↦ inl (ltb→lt size_mb 1 small, rw small refl)
  | inr one ↦ elim (Bool-cases (ltb 8 size_mb)) [
    | inl big ↦ inr (inr (ltb→lt 8 size_mb big, rw (one, big) refl))
    | inr fits ↦ inr (inl (ground (arith, one), ground (arith, fits), rw (one, fits) refl))
  ]
]

-- The chunks of a download have at most 64 KiB each, and together as many bytes as the size that a
-- client asks for in MiB, except that a size below 1 counts as 1 and one above 8 as 8.
pub download_backup_lem :
    (size_mb : ℕ)
    → All (λ n. n ≤ 65536) (download_backup size_mb)
      × Serves size_mb (sum (download_backup size_mb))
unfolding download_backup
download_backup_lem size_mb =
    let total = clamped_mb size_mb * 1024 * 1024 in
    let steps = (total + 65535) / 65536 in
    let all : sum (chunks_from 0 steps total) ≡ clamped_mb size_mb * 1048576 =
      sum-chunks_from 0 steps total (omega arith) ∙ omega arith in
    (chunks_from-small 0 steps total, subst (Serves size_mb) (sym all) (clamped_mb-Serves size_mb))
