-- ===== src/Db/Machine/Batches.antt =====
-- Applying a committed log in db/src/raft.rs, all at once or in batches.
use infovulcan.Common.{
  ◌≡◌, refl, ap, ◌∙◌, inl, inr, Option, some, List, [], ◌∷◌, ◌++◌, arith, length, Result, ok, err,
  Result-cases,
}
use infovulcan.Openraft.{LogId, Entry, EntryPayload, blank, normal, membership}
use infovulcan.Db.Types.{Backend, LogEntry}
use infovulcan.Db.Machine.{DbResponse, StateMachine, apply_one, apply_to_state_machine}

-- The log id of the last entry, or the one from before.
abbrev pub last_of : {M : Type 0} → List (Entry LogEntry M) → Option LogId → Option LogId
last_of [] l = l
last_of (e ∷ es) l = last_of es (some e.log_id)

-- The responses of a first batch, then those of a second.
abbrev pub after : {R S : Type 0} → List R → Result (List R) × S → Result (List R) × S
after rs (ok ss, sm) = (ok (rs ++ ss), sm)
after rs (err e, sm) = (err e, sm)

module _ (b : Backend) {M Stored : Type 0} (stored : Option LogId → M → Stored) where
  -- A second batch, applied only if the first was applied to its end.
  abbrev pub and_then :
      Result (List DbResponse) × StateMachine b stored
      → List (Entry LogEntry M)
      → Result (List DbResponse) × StateMachine b stored
  and_then (err e, sm) ys = (err e, sm)
  and_then (ok rs, sm) ys = after rs (apply_to_state_machine b stored ys sm)

  last_applied_one :
      (e : Entry LogEntry M) (sm : StateMachine b stored)
      → (apply_one b stored e sm).1.last_applied_log ≡ some e.log_id
  unfolding apply_one
  last_applied_one e sm = by_payload e.payload
    where
      by_payload :
          (p : EntryPayload LogEntry M)
          → (apply_one b stored (record { log_id = e.log_id; payload = p }) sm).1.last_applied_log
            ≡ some e.log_id
      by_payload blank = refl
      by_payload (normal c) = refl
      by_payload (membership m) = refl

  -- A log that is applied to its end gives one response per entry, and leaves the log id of the last
  -- entry as the last one applied.
  pub responses :
      (es : List (Entry LogEntry M)) (sm : StateMachine b stored) (rs : List DbResponse)
      → (apply_to_state_machine b stored es sm).0 ≡ ok rs
      → (length rs ≡ length es)
        × ((apply_to_state_machine b stored es sm).1.last_applied_log
            ≡ last_of es sm.last_applied_log)
  unfolding apply_to_state_machine
  responses [] sm rs h = ground arith
  responses (e ∷ es) sm rs h =
      let sm1 = (apply_one b stored e sm).1 in
      elim (Result-cases (apply_one b stored e sm).0) [
        | inr (x, p) ↦ ground (arith, h, p)
        | inl (r, p) ↦ elim (Result-cases (apply_to_state_machine b stored es sm1).0) [
          | inr (x, q) ↦ ground (arith, h, p, q)
          | inl (rs', q) ↦
              let rec = responses es sm1 rs' q in
              let last = rec.1 ∙ ap (last_of es) (last_applied_one e sm) in
              (ground (arith, h, p, q, rec.0), ground (arith, p, q, last))
        ]
      ]

  -- A log may be applied in batches, cut anywhere: applying the first part and, if it was applied to
  -- its end, the second gives the responses, the error and the state of applying the whole.
  pub apply_to_state_machine-append :
      (xs ys : List (Entry LogEntry M)) (sm : StateMachine b stored)
      → apply_to_state_machine b stored (xs ++ ys) sm
        ≡ and_then (apply_to_state_machine b stored xs sm) ys
  unfolding apply_to_state_machine
  apply_to_state_machine-append [] ys sm =
      elim (Result-cases (apply_to_state_machine b stored ys sm).0) [
        | inl (rs, p) ↦ ground (arith, p)
        | inr (x, p) ↦ ground (arith, p)
      ]
  apply_to_state_machine-append (x ∷ xs) ys sm =
      ground (arith, apply_to_state_machine-append xs ys (apply_one b stored x sm).1)
