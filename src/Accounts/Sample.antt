-- ===== src/Accounts/Sample.antt =====
-- A concrete platform and database for auth/src/server.rs and admin/src/server.rs. A date is its
-- unix seconds; the ciphers, hashes and tokens keep what they must read back.
use infovulcan.Common.{
  ℕ, zero, suc, ◌≡◌, refl, subst, Bool, Option, none, some, ◌++◌, arith, ◌==◌, if◌then◌else◌,
  length, drop, Bytes, starts_with, starts_with-append,
}
use infovulcan.Common.Int.{ℤ, pos}
use infovulcan.Serde.Codec.{
  Codec, nat_codec, bytes_codec, bool_codec, int_codec, option_codec, pair_codec, via_codec,
  drop-append,
}
use infovulcan.Shared.Encryption.{
  EncryptionAlgorithm, algorithm_as_u32, algorithm_from_u32, EncryptedData, Ciphers,
}
use infovulcan.Shared.User.{
  Role, admin, manager, supervisor, technician, ebond_partner, read_only, role_as_u8, AuthMethod,
  password, web_authn, u2f, totp, active_directory, User, UserAuth,
}

-- The key stands before the plain text.
abbrev pub unseal : (key sealed : Bytes) → Option Bytes
unseal key sealed = if starts_with key sealed then some (drop (length key) sealed) else none

unseal_lem : (key plain : Bytes) → unseal key (key ++ plain) ≡ some plain
unseal_lem key plain = rw (starts_with-append key plain, drop-append key plain) refl

sealed_back :
    (algorithm : EncryptionAlgorithm) (key nonce plain ciphertext : Bytes)
    → some (key ++ plain) ≡ some ciphertext
    → unseal key ciphertext ≡ some plain
sealed_back algorithm key nonce plain ciphertext e = ground (arith, e, unseal_lem key plain)

abbrev Pair : Bytes → Bytes → Type 0
Pair public_key private_key = (public_key ≡ private_key) × (length public_key ≡ 1)

Pair-length :
    (public_key private_key : Bytes)
    → Pair public_key private_key
    → (length public_key ≡ 1) × (length private_key ≡ 1)
Pair-length public_key private_key h = (h.1, subst (λ x. length x ≡ 1) h.0 h.1)

secret_back :
    (seed public_key private_key kem secret : Bytes)
    → Pair public_key private_key
    → ◌≡◌ {A = Option (Bytes × Bytes)} (some (seed, seed ++ public_key)) (some (kem, secret))
    → some (kem ++ private_key) ≡ some secret
secret_back seed public_key private_key kem secret h e = ground (arith, h.0, e)

unfoldable pub ciphers : Ciphers
unfolding unseal_lem sealed_back Pair-length secret_back
ciphers = record {
  public_key_bytes = 1;
  secret_key_bytes = 1;
  derive_key = λ password salt. some (salt ++ password);
  encapsulate = λ seed public_key. some (seed, seed ++ public_key);
  decapsulate = λ kem private_key. some (kem ++ private_key);
  seal = λ algorithm key nonce plain. some (key ++ plain);
  open_sealed = λ algorithm key nonce ciphertext. unseal key ciphertext;
  IsPair = Pair;
  length-IsPair = Pair-length;
  decapsulate-encapsulate = secret_back;
  open_sealed-seal = sealed_back;
}

abbrev pub of_sealed : EncryptedData → (ℕ × Option Bytes) × (Option Bytes × (Bytes × Bytes))
of_sealed s = ((algorithm_as_u32 s.algorithm, s.salt), (s.kem_ciphertext, (s.nonce, s.ciphertext)))

abbrev pub to_sealed : (ℕ × Option Bytes) × (Option Bytes × (Bytes × Bytes)) → Option EncryptedData
to_sealed p = elim (algorithm_from_u32 p.0.0) [
  | none ↦ none
  | some algorithm ↦ some (record {
    algorithm = algorithm;
    salt = p.0.1;
    kem_ciphertext = p.1.0;
    nonce = p.1.1.0;
    ciphertext = p.1.1.1;
  })
]

sealed_lem : (s : EncryptedData) → to_sealed (of_sealed s) ≡ some s
unfolding algorithm_from_u32 algorithm_as_u32
sealed_lem s = ground arith

unfoldable pub sealed_codec : Codec EncryptedData
unfolding sealed_lem
sealed_codec =
    via_codec
      (pair_codec (pair_codec nat_codec option_codec)
        (pair_codec option_codec (pair_codec bytes_codec bytes_codec)))
      of_sealed to_sealed sealed_lem

abbrev pub role_of_nat : ℕ → Role
role_of_nat n =
    if n == 0
    then admin
    else if n == 1
    then manager
    else if n == 2
    then supervisor
    else if n == 3
    then technician
    else if n == 4
    then ebond_partner
    else read_only

abbrev pub Profile : Type 0
Profile = ((Bytes × Bytes) × (Bytes × Bytes)) × ((ℕ × (Bool × Bool)) × ((ℕ × ℤ) × (ℤ × ℤ)))

abbrev pub nat_of_date : Option ℤ → ℕ × ℤ
nat_of_date none = (0, pos 0)
nat_of_date (some t) = (1, t)

abbrev pub date_of_nat : ℕ × ℤ → Option ℤ
date_of_nat (zero, t) = none
date_of_nat (suc n, t) = some t

abbrev pub of_user : User ℤ → Profile
of_user u = (
  ((u.user_id, u.username), (u.display_name, u.email)),
  (
    (role_as_u8 u.role, (u.is_active, u.mfa_enabled)),
    (nat_of_date u.last_login, (u.created_at, u.updated_at)),
  ),
)

abbrev pub to_user : Profile → Option (User ℤ)
to_user p = some (record {
  user_id = p.0.0.0;
  username = p.0.0.1;
  display_name = p.0.1.0;
  email = p.0.1.1;
  role = role_of_nat p.1.0.0;
  is_active = p.1.0.1.0;
  mfa_enabled = p.1.0.1.1;
  last_login = date_of_nat p.1.1.0;
  created_at = p.1.1.1.0;
  updated_at = p.1.1.1.1;
})

user_lem : (u : User ℤ) → to_user (of_user u) ≡ some u
unfolding role_as_u8
user_lem u = ground arith

unfoldable pub user_codec : Codec (User ℤ)
unfolding user_lem
user_codec =
    via_codec
      (pair_codec
        (pair_codec (pair_codec bytes_codec bytes_codec) (pair_codec bytes_codec bytes_codec))
        (pair_codec (pair_codec nat_codec (pair_codec bool_codec bool_codec))
          (pair_codec (pair_codec nat_codec int_codec) (pair_codec int_codec int_codec))))
      of_user to_user user_lem

abbrev pub nat_of_method : Option AuthMethod → ℕ
nat_of_method none = 0
nat_of_method (some password) = 1
nat_of_method (some web_authn) = 2
nat_of_method (some u2f) = 3
nat_of_method (some totp) = 4
nat_of_method (some active_directory) = 5

abbrev pub method_of_nat : ℕ → Option AuthMethod
method_of_nat n =
    if n == 1
    then some password
    else if n == 2
    then some web_authn
    else if n == 3
    then some u2f
    else if n == 4
    then some totp
    else if n == 5
    then some active_directory
    else none

abbrev pub of_auth : UserAuth → (Bytes × Bytes) × (Option Bytes × ℕ)
of_auth a = ((a.user_id, a.password_hash), (a.mfa_secret, nat_of_method a.mfa_method))

abbrev pub to_auth : (Bytes × Bytes) × (Option Bytes × ℕ) → Option UserAuth
to_auth p = some (record {
  user_id = p.0.0;
  password_hash = p.0.1;
  mfa_secret = p.1.0;
  mfa_method = method_of_nat p.1.1;
})

auth_lem : (a : UserAuth) → to_auth (of_auth a) ≡ some a
auth_lem a = ground arith

unfoldable pub auth_codec : Codec UserAuth
unfolding auth_lem
auth_codec =
    via_codec (pair_codec (pair_codec bytes_codec bytes_codec) (pair_codec option_codec nat_codec))
      of_auth to_auth auth_lem
