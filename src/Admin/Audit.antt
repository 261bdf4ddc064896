-- ===== src/Admin/Audit.antt =====
-- The audit log and the metrics of admin/src/server.rs.
use infovulcan.Common.{
  ℕ, zero, suc, ◌+◌, ◌/◌, ◌%◌, Bool, true, Option, [], ◌∷◌, ◌++◌, ◌==◌, if◌then◌else◌, Bytes, ascii,
}
use infovulcan.Common.Int.{ℤ, pos, negsuc}
use infovulcan.Admin.{Admin}

pub record IntrusionEvent : Type 0 where
  pub timestamp_unix : ℤ
  pub source_ip : Bytes
  pub endpoint_accessed : Bytes
  pub request_method : Bytes
  pub user_agent : Option Bytes
  pub request_body : Option Bytes
  pub tls_fingerprint : Option Bytes

abbrev pub audit_collection : Bytes
audit_collection = ascii "audit"

-- The decimal digits of a number below 10 ^ fuel, before the text given.
unfoldable pub digits : (fuel n : ℕ) → Bytes → Bytes
digits zero n acc = acc
digits (suc fuel) n acc =
    let rest = digits fuel (n / 10) ((48 + n % 10) ∷ acc) in
    if n / 10 == 0 then (48 + n % 10) ∷ acc else rest

-- `format!("{}")` of an i64.
unfoldable pub display_i64 : ℤ → Bytes
display_i64 (pos n) = digits 19 n []
display_i64 (negsuc n) = ascii "-" ++ digits 19 (suc n) []

abbrev pub intrusion_key : IntrusionEvent → Bytes
intrusion_key event =
    ascii "intrusion:"
    ++ display_i64 event.timestamp_unix
    ++ ascii ":"
    ++ event.source_ip
    ++ ascii ":"
    ++ event.endpoint_accessed

-- `encode_to_vec` of prost is a parameter. The answer does not depend on the write.
module _ {DateTime S : Type 0} (a : Admin DateTime S) (encode : IntrusionEvent → Bytes) where
  unfoldable pub record_intrusion : IntrusionEvent → S → Bool × S
  record_intrusion event s =
      (true, (a.kv.put s audit_collection (intrusion_key event) (encode event)).1)

-- The snapshot of the metrics is not used.
unfoldable pub push_metrics : Bool
push_metrics = true
