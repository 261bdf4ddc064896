-- ===== src/Serde.antt =====
-- `serde_json` for one type: `to_vec` and `from_slice`. The crate and the derived instances are a
-- parameter; what the callers rely on is that a value written is read back.
pub mod Codec
use infovulcan.Common.{◌≡◌, Option, some, Bytes}

pub record Serde (A : Type 0) : Type 0 where
  pub to_vec : A → Bytes
  pub from_slice : Bytes → Option A
  pub from_slice-to_vec : (a : A) → from_slice (to_vec a) ≡ some a
