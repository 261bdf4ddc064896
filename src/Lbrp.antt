-- ===== src/Lbrp.antt =====
-- The REST gateway, lbrp/src: errors, the check of tokens, and what its handlers exchange.
pub mod Actions
pub mod Discovery
pub mod Routes
mod Tests
use infovulcan.Common.{
  ℕ, zero, suc, ◌+◌, ◌-◌, ◌*◌, ◌/◌, ◌%◌, ◌^◌, ◌≤◌, ◌<◌, ◌≡◌, refl, sym, ap, ◌∙◌, subst, ◌≢◌, ◌↔◌,
  ◌⊎◌, inl, inr, Bool, true, false, not, ◌&&◌, ◌||◌, Option, none, some, List, [], ◌∷◌, ◌++◌, map,
  arith, ltb, leb, ◌==◌, if◌then◌else◌, ltb→lt, lt→ltb, leb→le, le→leb, ==_iff, tests, Bool-cases,
  Option-cases, length, length-append, take, drop, replicate, filter, In, In-filter, of_In-filter,
  All, All-In, Bytes, ascii, beq, beq_refl, eq_of_beq, starts_with, starts_with-append, blt, ble,
  blt_irrefl, blt_trans, blt_total, Error, not_found, corrupt, Result, ok, err, or_err,
  Result-cases,
}
use infovulcan.Common.Int.{ℤ}
use infovulcan.Common.Outcome.{Outcome, done, failed, ok_or, ensure, ◌>>=◌}
use infovulcan.Grpc.{
  Code, cancelled, unknown, invalid_argument, deadline_exceeded, not_found, already_exists,
  permission_denied, resource_exhausted, failed_precondition, aborted, out_of_range, unimplemented,
  internal, unavailable, data_loss, unauthenticated,
}
use infovulcan.Auth.{Claims}

-- `tonic::Status`
pub record Status : Type 0 where
  pub code : Code
  pub message : Bytes

-- An HTTP status is its number.
pub record ApiError : Type 0 where
  pub status : ℕ
  pub code : Bytes
  pub message : Bytes

unfoldable pub unauthorized : Bytes → ApiError
unauthorized message = record { status = 401; code = ascii "unauthenticated"; message = message }

unfoldable pub internal_error : Bytes → ApiError
internal_error message = record { status = 500; code = ascii "internal"; message = message }

unfoldable pub not_found_error : Bytes → ApiError
not_found_error message = record { status = 404; code = ascii "not_found"; message = message }

-- The HTTP status and the code for a code of gRPC.
unfoldable pub http_of_code : Code → ℕ × Bytes
http_of_code unauthenticated = (401, ascii "unauthenticated")
http_of_code permission_denied = (403, ascii "permission_denied")
http_of_code invalid_argument = (400, ascii "invalid_argument")
http_of_code not_found = (404, ascii "not_found")
http_of_code unavailable = (503, ascii "unavailable")
http_of_code cancelled = (500, ascii "internal")
http_of_code unknown = (500, ascii "internal")
http_of_code deadline_exceeded = (500, ascii "internal")
http_of_code already_exists = (500, ascii "internal")
http_of_code resource_exhausted = (500, ascii "internal")
http_of_code failed_precondition = (500, ascii "internal")
http_of_code aborted = (500, ascii "internal")
http_of_code out_of_range = (500, ascii "internal")
http_of_code unimplemented = (500, ascii "internal")
http_of_code internal = (500, ascii "internal")
http_of_code data_loss = (500, ascii "internal")

-- `From<tonic::Status>`
unfoldable pub from_status : Status → ApiError
from_status s = record {
  status = (http_of_code s.code).0;
  code = (http_of_code s.code).1;
  message = s.message;
}

abbrev pub bearer : Bytes
bearer = ascii "Bearer "

-- The middleware up to the handler; a refusal is an HTTP status. The header is none when it is absent
-- or no text.
unfoldable pub auth_middleware :
    (decode : Bytes → Option Claims) → (header : Option Bytes) → Outcome ℕ Claims
auth_middleware decode header = do
  text ← ok_or header 401
  checked ← ensure (starts_with bearer text) 401
  ok_or (decode (drop 7 text)) 401
