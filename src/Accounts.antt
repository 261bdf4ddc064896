-- ===== src/Accounts.antt =====
-- What auth/src/server.rs and admin/src/server.rs share: where the two records of an account are
-- kept in the database, and how they are sealed.
pub mod Sealed
pub mod Journey
pub mod Sample
pub mod Deployment
pub mod Tests
pub mod Sessions
pub mod Replicated
use infovulcan.Common.{
  ℕ, zero, suc, ◌+◌, ◌-◌, ◌*◌, ◌/◌, ◌%◌, ◌^◌, ◌≤◌, ◌<◌, ◌≡◌, refl, sym, ap, ◌∙◌, subst, ◌≢◌, ◌↔◌,
  ◌⊎◌, inl, inr, Bool, true, false, not, ◌&&◌, ◌||◌, Option, none, some, List, [], ◌∷◌, ◌++◌, map,
  arith, ltb, leb, ◌==◌, if◌then◌else◌, ltb→lt, lt→ltb, leb→le, le→leb, ==_iff, tests, Bool-cases,
  Option-cases, length, length-append, take, drop, replicate, filter, In, In-filter, of_In-filter,
  All, All-In, Bytes, ascii, beq, beq_refl, eq_of_beq, starts_with, starts_with-append, blt, ble,
  blt_irrefl, blt_trans, blt_total, Error, not_found, corrupt, Result, ok, err, or_err,
  Result-cases,
}
use infovulcan.Common.Int.{ℤ}
use infovulcan.Common.Outcome.{Outcome, done, failed, ok_or, map_err, ◌>>=◌}
use infovulcan.Grpc.{Code}
use infovulcan.Kv.{Kv}
use infovulcan.Serde.{Serde}
use infovulcan.Shared.User.{
  Role, admin, manager, supervisor, technician, ebond_partner, read_only, User, UserAuth,
}
use infovulcan.Shared.Encryption.{
  EncryptedData, EncryptionError, Random, Ciphers, encrypt_with_public_key,
  decrypt_with_private_key,
}

-- What the services are built on: the ciphers, `serde_json`, `uuid`, the unix seconds of a date, and
-- argon2. `verify_password` is none when the hash cannot be parsed. A uuid is its 16 bytes.
pub record Platform (DateTime : Type 0) : Type 1 where
  pub ciphers : Ciphers
  pub encrypted : Serde EncryptedData
  pub users : Serde (User DateTime)
  pub auths : Serde UserAuth
  pub uuid_string : Bytes → Bytes
  pub parse_uuid : Bytes → Option Bytes
  pub parse_uuid-uuid_string : (u : Bytes) → length u ≡ 16 → parse_uuid (uuid_string u) ≡ some u
  pub timestamp : DateTime → ℤ
  pub hash_password : (salt password : Bytes) → Option Bytes
  pub verify_password : (hash password : Bytes) → Option Bool
  pub verify_password-hash_password :
      (salt password hash : Bytes)
      → hash_password salt password ≡ some hash
      → verify_password hash password ≡ some true

pub record Keys : Type 0 where
  pub public_key : Bytes
  pub private_key : Bytes

abbrev pub users_collection : Bytes
users_collection = ascii "users"

abbrev pub auth_collection : Bytes
auth_collection = ascii "auth"

abbrev pub auth_key : Bytes → Bytes
auth_key username = ascii "auth:username:" ++ username

-- `format!("{:?}", role)`
unfoldable pub role_debug : Role → Bytes
role_debug admin = ascii "Admin"
role_debug manager = ascii "Manager"
role_debug supervisor = ascii "Supervisor"
role_debug technician = ascii "Technician"
role_debug ebond_partner = ascii "EbondPartner"
role_debug read_only = ascii "ReadOnly"

abbrev internal_error : EncryptionError → Code
internal_error e = Code.internal

module _ {DateTime : Type 0} (p : Platform DateTime) (keys : Keys) {A : Type 0}
    (serde : Serde A) where
  -- `decrypt_user`, and the same steps for the other records.
  unfoldable pub open_record : Bytes → Outcome Code A
  open_record value = do
    sealed ← ok_or (p.encrypted.from_slice value) Code.internal
    plain ← map_err internal_error (decrypt_with_private_key p.ciphers sealed keys.private_key)
    ok_or (serde.from_slice plain) Code.internal

  -- `encrypt_user`, and the same steps for the other records. Writing JSON does not fail here.
  unfoldable pub seal_record : Random → A → Outcome Code Bytes
  seal_record random a = do
    sealed ←
        map_err internal_error
          (encrypt_with_public_key p.ciphers random (serde.to_vec a) keys.public_key)
    done (p.encrypted.to_vec sealed)

  -- A collection holds a record under a key, sealed.
  abbrev pub Holds : {S : Type 0} → Kv S → S → (collection key : Bytes) → A → Type 0
  Holds kv s collection key a =
      (value : Bytes) × (kv.get s collection key ≡ done (some value)) × (open_record value ≡ done a)
