-- ===== src/Accounts/Sessions.antt =====
-- Logins and sessions of auth/src/server.rs on a concrete database.
use infovulcan.Common.{◌≡◌, refl, ◌↔◌, true, none, some, [], ◌∷◌, Bytes, ascii, beq, starts_with}
use infovulcan.Common.Int.{ℤ, pos}
use infovulcan.Common.Outcome.{done, failed}
use infovulcan.Serde.Codec.{
  serde_of, via_codec, pair_codec, nat_codec, bytes_codec, bool_codec, int_codec, option_codec,
}
use infovulcan.Shared.User.{UserAuth, role_as_u8}
use infovulcan.Shared.Encryption.RoundTrip.{decrypt-encrypt}
use infovulcan.Shared.Encryption.{
  EncryptedData, aes256_gcm, invalid_input, decrypt_with_password, algorithm_as_u32,
  algorithm_from_u32, encrypt_symmetric, decrypt_symmetric, encrypt_with_public_key,
  encrypt_with_public_key_and_algorithm, decrypt_with_private_key,
}
use infovulcan.Accounts.{open_record, seal_record}
use infovulcan.Accounts.Sample.{ciphers, sealed_codec, user_codec, auth_codec}
use infovulcan.Accounts.Deployment.{platform, Db, tokens, admin_service, jwt_secret}
use infovulcan.Accounts.Tests.{
  random, kv_store, pair, env, login, made, signed, adds, created, draws, ann, authenticate-created,
}
use infovulcan.Accounts.Journey.{auth_service, logged_in}
use infovulcan.Admin.{
  map_role, map_proto_role, user_to_proto, encrypt_user, created_user, created_auth, create_user,
}
use infovulcan.Auth.{
  Auth, AuthenticateResponse, authenticate, fetch, get_user_auth, get_user_profile,
  validate_session, user_info,
}
use infovulcan.Auth.Login.{Grants, authenticate-Grants}
use infovulcan.Auth.Session.{session_answer, validate_session-authenticate}

abbrev pub service : Auth ℤ Db
service = auth_service (admin_service []) kv_store pair tokens jwt_secret

abbrev pub answer : AuthenticateResponse ℤ
answer = logged_in (admin_service []) kv_store pair tokens jwt_secret signed made

authenticate-Grants_example :
    ((authenticate service created env login ≡ done answer) × (answer.success ≡ true))
    ↔ Grants service created env login answer
authenticate-Grants_example = authenticate-Grants service created env login answer

abbrev pub auth : UserAuth
auth = created_auth (admin_service []) (draws (pos 100)) (1 ∷ 5 ∷ ascii "pw")

pub reads_auth : get_user_auth service created (ascii "ann") ≡ done (some auth)
unfolding get_user_auth fetch created create_user created_user created_auth encrypt_user seal_record
    encrypt_with_public_key encrypt_with_public_key_and_algorithm encrypt_symmetric ciphers platform
    user_to_proto map_role map_proto_role serde_of user_codec auth_codec sealed_codec open_record
    decrypt_with_private_key decrypt_symmetric beq algorithm_from_u32 algorithm_as_u32 via_codec
    pair_codec nat_codec option_codec bytes_codec starts_with bool_codec int_codec role_as_u8
reads_auth = refl

pub reads_profile : get_user_profile service created ann ≡ done (some made)
unfolding get_user_profile fetch created create_user created_user created_auth encrypt_user
    seal_record encrypt_with_public_key encrypt_with_public_key_and_algorithm encrypt_symmetric
    ciphers platform user_to_proto map_role map_proto_role serde_of user_codec auth_codec
    sealed_codec open_record decrypt_with_private_key decrypt_symmetric beq algorithm_from_u32
    algorithm_as_u32 via_codec pair_codec nat_codec option_codec bytes_codec starts_with bool_codec
    int_codec role_as_u8
reads_profile = refl

validate_session-authenticate_example :
    (answer.user ≡ some (user_info service made))
    × (validate_session service created (pos 2000) answer.session_token
        ≡ done (session_answer service (some made)))
unfolding created_user created_auth platform
validate_session-authenticate_example =
    validate_session-authenticate service created created env login answer auth made (pos 87400)
      (pos 2000) (some made) authenticate-created refl reads_auth reads_profile refl adds refl
      reads_profile

abbrev envelope : EncryptedData
envelope = record {
  algorithm = aes256_gcm;
  salt = none;
  kem_ciphertext = some (3 ∷ []);
  nonce = 4 ∷ [];
  ciphertext = 3 ∷ 7 ∷ ascii "text";
}

encrypts :
    encrypt_with_public_key_and_algorithm ciphers random (ascii "text") (7 ∷ []) aes256_gcm
    ≡ done envelope
unfolding encrypt_with_public_key_and_algorithm encrypt_symmetric ciphers
encrypts = refl

decrypt-encrypt_example :
    (decrypt_with_private_key ciphers envelope (7 ∷ []) ≡ done (ascii "text"))
    × ((password : Bytes) → decrypt_with_password ciphers envelope password ≡ failed invalid_input)
unfolding ciphers platform
decrypt-encrypt_example =
    decrypt-encrypt ciphers random (ascii "text") aes256_gcm envelope (7 ∷ []) (7 ∷ []) pair
      encrypts
