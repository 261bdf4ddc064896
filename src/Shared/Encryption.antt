-- ===== src/Shared/Encryption.antt =====
-- The envelope of shared/src/encryption.rs: data encrypted under a password or a public key. The
-- ciphers, the key encapsulation and the key derivation are third-party code, a parameter; the
-- random bytes that a call draws are its argument.
pub mod RoundTrip
use infovulcan.Common.{
  ℕ, zero, suc, ◌+◌, ◌-◌, ◌*◌, ◌/◌, ◌%◌, ◌^◌, ◌≤◌, ◌<◌, ◌≡◌, refl, sym, ap, ◌∙◌, subst, ◌≢◌, ◌↔◌,
  ◌⊎◌, inl, inr, Bool, true, false, not, ◌&&◌, ◌||◌, Option, none, some, List, [], ◌∷◌, ◌++◌, map,
  arith, ltb, leb, ◌==◌, if◌then◌else◌, ltb→lt, lt→ltb, leb→le, le→leb, ==_iff, tests, Bool-cases,
  Option-cases, length, length-append, take, drop, replicate, filter, In, In-filter, of_In-filter,
  All, All-In, Bytes, ascii, beq, beq_refl, eq_of_beq, starts_with, starts_with-append, blt, ble,
  blt_irrefl, blt_trans, blt_total, Error, not_found, corrupt, Result, ok, err, or_err,
  Result-cases,
}
use infovulcan.Common.Outcome.{Outcome, done, failed, ok_or, ensure, ◌>>=◌}

pub data EncryptionAlgorithm : Type 0 where
  aes256_gcm : EncryptionAlgorithm
  cha_cha20_poly1305 : EncryptionAlgorithm

-- `#[default]`
abbrev pub default_algorithm : EncryptionAlgorithm
default_algorithm = EncryptionAlgorithm.cha_cha20_poly1305

-- The number that `serialize` writes.
unfoldable pub algorithm_as_u32 : EncryptionAlgorithm → ℕ
algorithm_as_u32 aes256_gcm = 0
algorithm_as_u32 cha_cha20_poly1305 = 1

-- `deserialize`, from the number read.
unfoldable pub algorithm_from_u32 : ℕ → Option EncryptionAlgorithm
algorithm_from_u32 v =
    if v == 0
    then some EncryptionAlgorithm.aes256_gcm
    else if v == 1
    then some EncryptionAlgorithm.cha_cha20_poly1305
    else none

pub record EncryptedData : Type 0 where
  pub algorithm : EncryptionAlgorithm
  pub salt : Option Bytes
  pub kem_ciphertext : Option Bytes
  pub nonce : Bytes
  pub ciphertext : Bytes

pub data EncryptionError : Type 0 where
  random_number_generation : EncryptionError
  symmetric_encryption : EncryptionError
  symmetric_decryption : EncryptionError
  key_generation : EncryptionError
  key_derivation : EncryptionError
  key_encapsulation : EncryptionError
  key_decapsulation : EncryptionError
  invalid_input : EncryptionError
  internal_error : EncryptionError

-- What one encryption draws: a salt, if the generator answers, the seed of the encapsulation, and
-- the nonce.
pub record Random : Type 0 where
  pub salt : Option Bytes
  pub seed : Bytes
  pub nonce : Bytes

-- The crates. `encapsulate` gives a ciphertext and a shared secret; `seal` and `open_sealed` are the
-- two authenticated ciphers. A pair of keys is one that `keypair` makes.
pub record Ciphers : Type 1 where
  pub public_key_bytes : ℕ
  pub secret_key_bytes : ℕ
  pub derive_key : (password salt : Bytes) → Option Bytes
  pub encapsulate : (seed public_key : Bytes) → Option (Bytes × Bytes)
  pub decapsulate : (kem_ciphertext private_key : Bytes) → Option Bytes
  pub seal : EncryptionAlgorithm → (key nonce plain : Bytes) → Option Bytes
  pub open_sealed : EncryptionAlgorithm → (key nonce ciphertext : Bytes) → Option Bytes
  pub IsPair : (public_key private_key : Bytes) → Type 0
  pub length-IsPair :
      (public_key private_key : Bytes)
      → IsPair public_key private_key
      → (length public_key ≡ public_key_bytes) × (length private_key ≡ secret_key_bytes)
  pub decapsulate-encapsulate :
      (seed public_key private_key kem secret : Bytes)
      → IsPair public_key private_key
      → encapsulate seed public_key ≡ some (kem, secret)
      → decapsulate kem private_key ≡ some secret
  pub open_sealed-seal :
      (algorithm : EncryptionAlgorithm) (key nonce plain ciphertext : Bytes)
      → seal algorithm key nonce plain ≡ some ciphertext
      → open_sealed algorithm key nonce ciphertext ≡ some plain

module _ (c : Ciphers) where
  unfoldable pub derive_key_from_password : (password salt : Bytes) → Outcome EncryptionError Bytes
  derive_key_from_password password salt = ok_or (c.derive_key password salt) key_derivation

  -- The nonce with the ciphertext.
  unfoldable pub encrypt_symmetric :
      (key nonce plain : Bytes) → EncryptionAlgorithm → Outcome EncryptionError (Bytes × Bytes)
  encrypt_symmetric key nonce plain algorithm = do
    ciphertext ← ok_or (c.seal algorithm key nonce plain) symmetric_encryption
    done (nonce, ciphertext)

  -- A nonce that has not the length of its algorithm is one that `open_sealed` does not open: the
  -- code panics there, in `Nonce::from_slice`.
  unfoldable pub decrypt_symmetric :
      (key : Bytes) → EncryptedData → EncryptionAlgorithm → Outcome EncryptionError Bytes
  decrypt_symmetric key encrypted algorithm =
      ok_or (c.open_sealed algorithm key encrypted.nonce encrypted.ciphertext) symmetric_decryption

  unfoldable pub encrypt_with_password_and_algorithm :
      Random
      → (plain password : Bytes) → EncryptionAlgorithm
      → Outcome EncryptionError EncryptedData
  encrypt_with_password_and_algorithm random plain password algorithm = do
    salt ← ok_or random.salt random_number_generation
    key ← derive_key_from_password password salt
    sealed ← encrypt_symmetric key random.nonce plain algorithm
    done (record {
      algorithm = algorithm;
      salt = some salt;
      kem_ciphertext = none;
      nonce = sealed.0;
      ciphertext = sealed.1;
    })

  unfoldable pub encrypt_with_password :
      Random → (plain password : Bytes) → Outcome EncryptionError EncryptedData
  encrypt_with_password random plain password =
      encrypt_with_password_and_algorithm random plain password default_algorithm

  unfoldable pub decrypt_with_password :
      EncryptedData → (password : Bytes) → Outcome EncryptionError Bytes
  decrypt_with_password encrypted password = do
    salt ← ok_or encrypted.salt invalid_input
    key ← derive_key_from_password password salt
    decrypt_symmetric key encrypted encrypted.algorithm

  unfoldable pub encrypt_with_public_key_and_algorithm :
      Random
      → (plain public_key : Bytes) → EncryptionAlgorithm
      → Outcome EncryptionError EncryptedData
  encrypt_with_public_key_and_algorithm random plain public_key algorithm = do
    checked ← ensure (length public_key == c.public_key_bytes) invalid_input
    kem ← ok_or (c.encapsulate random.seed public_key) key_encapsulation
    sealed ← encrypt_symmetric kem.1 random.nonce plain algorithm
    done (record {
      algorithm = algorithm;
      salt = none;
      kem_ciphertext = some kem.0;
      nonce = sealed.0;
      ciphertext = sealed.1;
    })

  unfoldable pub encrypt_with_public_key :
      Random → (plain public_key : Bytes) → Outcome EncryptionError EncryptedData
  encrypt_with_public_key random plain public_key =
      encrypt_with_public_key_and_algorithm random plain public_key default_algorithm

  unfoldable pub decrypt_with_private_key :
      EncryptedData → (private_key : Bytes) → Outcome EncryptionError Bytes
  decrypt_with_private_key encrypted private_key = do
    kem_ciphertext ← ok_or encrypted.kem_ciphertext invalid_input
    checked ← ensure (length private_key == c.secret_key_bytes) invalid_input
    secret ← ok_or (c.decapsulate kem_ciphertext private_key) key_decapsulation
    decrypt_symmetric secret encrypted encrypted.algorithm
