-- ===== src/Shared/Encryption/RoundTrip.antt =====
-- What shared/src/encryption.rs encrypts is decrypted, in the same mode only.
use infovulcan.Common.{◌≡◌, some, arith, ◌==◌, length, Bytes}
use infovulcan.Common.Outcome.{done, failed, >>=-done, ensure-done, ok_or-done}
use infovulcan.Shared.Encryption.{
  EncryptionAlgorithm, EncryptedData, invalid_input, symmetric_encryption, random_number_generation,
  key_encapsulation, Random, Ciphers, derive_key_from_password, encrypt_symmetric,
  decrypt_symmetric, encrypt_with_password_and_algorithm, decrypt_with_password,
  encrypt_with_public_key_and_algorithm, decrypt_with_private_key,
}

module _ (c : Ciphers) (random : Random) (plain : Bytes) (algorithm : EncryptionAlgorithm)
    (sealed : EncryptedData) where
  encrypt_symmetric-done :
      (key : Bytes) (pair : Bytes × Bytes)
      → encrypt_symmetric c key random.nonce plain algorithm ≡ done pair
      → c.open_sealed algorithm key pair.0 pair.1 ≡ some plain
  unfolding encrypt_symmetric
  encrypt_symmetric-done key pair h =
      let (t, e, e') =
        ok_or-done (c.seal algorithm key random.nonce plain) symmetric_encryption _ pair h in
      ground (arith, e', c.open_sealed-seal algorithm key random.nonce plain t e)

  pub with_password :
      (password : Bytes)
      → encrypt_with_password_and_algorithm c random plain password algorithm ≡ done sealed
      → (decrypt_with_password c sealed password ≡ done plain)
        × ((private_key : Bytes)
            → decrypt_with_private_key c sealed private_key ≡ failed invalid_input)
  unfolding encrypt_with_password_and_algorithm decrypt_with_password decrypt_symmetric
      decrypt_with_private_key
  with_password password h =
      let (salt, e0, h1) = ok_or-done random.salt random_number_generation _ sealed h in
      let (key, e1, h2) = >>=-done (derive_key_from_password c password salt) _ sealed h1 in
      let (pair, e2, e) =
        >>=-done (encrypt_symmetric c key random.nonce plain algorithm) _ sealed h2 in
      (ground (arith, e1, e, encrypt_symmetric-done key pair e2), λ private_key. ground (arith, e))

  -- Data encrypted under a public key, with any algorithm, is given back by the private key of the
  -- pair, and no password opens it: the attempt is refused as invalid input.
  pub decrypt-encrypt :
      (public_key private_key : Bytes)
      → c.IsPair public_key private_key
      → encrypt_with_public_key_and_algorithm c random plain public_key algorithm ≡ done sealed
      → (decrypt_with_private_key c sealed private_key ≡ done plain)
        × ((password : Bytes) → decrypt_with_password c sealed password ≡ failed invalid_input)
  unfolding encrypt_with_public_key_and_algorithm decrypt_with_password decrypt_symmetric
      decrypt_with_private_key
  decrypt-encrypt public_key private_key p h =
      let (e0, h1) =
        ensure-done (length public_key == c.public_key_bytes) invalid_input _ sealed h in
      let (kem, e1, h2) =
        ok_or-done (c.encapsulate random.seed public_key) key_encapsulation _ sealed h1 in
      let (pair, e2, e) =
        >>=-done (encrypt_symmetric c kem.1 random.nonce plain algorithm) _ sealed h2 in
      (
        ground (
          arith,
          e,
          (c.length-IsPair public_key private_key p).1,
          c.decapsulate-encapsulate random.seed public_key private_key kem.0 kem.1 p e1,
          encrypt_symmetric-done kem.1 pair e2,
        ),
        λ password. ground (arith, e),
      )
