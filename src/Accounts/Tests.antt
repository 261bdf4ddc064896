-- ===== src/Accounts/Tests.antt =====
-- An account through auth/src/server.rs and admin/src/server.rs, on a concrete database.
use infovulcan.Common.{
  ◌≡◌, refl, true, none, some, [], ◌∷◌, ◌++◌, replicate, Bytes, ascii, beq, starts_with,
}
use infovulcan.Common.Int.{ℤ, pos}
use infovulcan.Common.Outcome.{done}
use infovulcan.Serde.Codec.{
  serde_of, via_codec, pair_codec, nat_codec, bytes_codec, bool_codec, int_codec, option_codec,
}
use infovulcan.Shared.User.{User, role_as_u8}
use infovulcan.Shared.Encryption.{
  Random, algorithm_as_u32, algorithm_from_u32, encrypt_symmetric, decrypt_symmetric,
  encrypt_with_public_key, encrypt_with_public_key_and_algorithm, decrypt_with_private_key,
}
use infovulcan.Kv.{IsStore}
use infovulcan.Accounts.{open_record, seal_record, role_debug}
use infovulcan.Accounts.Sealed.{HasPair}
use infovulcan.Accounts.Sample.{ciphers, sealed_codec, user_codec, auth_codec}
use infovulcan.Accounts.Deployment.{
  platform, keys, Db, empty, kv, kv-IsStore, tokens, claims_codec, admin_service, jwt_secret,
}
use infovulcan.Accounts.Journey.{
  auth_service, logged_in, deactivated, authenticate-create_user, authenticate-delete_user,
}
use infovulcan.Admin.{
  Draws, CreateUserRequest, UpdateUserRequest, ProtoUser, map_role, map_proto_role, user_to_proto,
  encrypt_user, decrypt_user, created_user, created_auth, create_user, user_key, existing_user,
  store_user, delete_user, mfa_of, update_password, with_fields, change_password, update_user,
}
use infovulcan.Admin.Users.{HoldsUser}
use infovulcan.Admin.Updates.Edited.{Updated, update_user_lem}
use infovulcan.Auth.{Env, AuthenticateRequest, authenticate, claims_of}

abbrev pub random : Random
random = record { salt = none; seed = 3 ∷ []; nonce = 4 ∷ [] }

abbrev pub ann : Bytes
ann = replicate 16 9

abbrev pub draws : ℤ → Draws ℤ
draws now = record {
  user_id = ann;
  salt = 5 ∷ [];
  auth_random = random;
  user_random = random;
  created_at = now;
  updated_at = now;
}

abbrev pub request : CreateUserRequest
request = record {
  username = ascii "ann";
  password = ascii "pw";
  email = ascii "a@b";
  display_name = ascii "Ann";
  role = pos 3;
}

abbrev pub shown : ProtoUser
shown = record {
  id = ann;
  username = ascii "ann";
  email = ascii "a@b";
  display_name = ascii "Ann";
  role = pos 3;
  active = true;
  created_at = 100;
}

pub creates : (create_user (admin_service []) (draws (pos 100)) request empty).0 ≡ done shown
unfolding create_user created_user created_auth encrypt_user seal_record encrypt_with_public_key
    encrypt_with_public_key_and_algorithm encrypt_symmetric ciphers platform user_to_proto map_role
    map_proto_role serde_of user_codec auth_codec sealed_codec
creates = refl

unfoldable pub created : Db
created = (create_user (admin_service []) (draws (pos 100)) request empty).1

abbrev pub kv_store : IsStore (kv [])
kv_store = kv-IsStore []

pub pair : HasPair platform keys platform.users
unfolding platform ciphers
pair = (refl, refl)

abbrev pub env : Env ℤ
env = record { now = pos 1000; mfa_disabled = none }

abbrev pub login : AuthenticateRequest
login = record { username = ascii "ann"; password = ascii "pw"; mfa_token = [] }

abbrev pub made : User ℤ
made = created_user (admin_service []) (draws (pos 100)) request

abbrev pub signed : Bytes
signed =
    jwt_secret
    ++ (serde_of claims_codec).to_vec (record { sub = ann; exp = 87400; role = ascii "Technician" })

pub signs :
    tokens.jwt_encode jwt_secret
      (claims_of (auth_service (admin_service []) kv_store pair tokens jwt_secret) made (pos 87400))
    ≡ some signed
unfolding tokens claims_of created_user map_role role_debug platform
signs = refl

pub adds : tokens.add_day (pos 1000) ≡ some (pos 87400)
unfolding tokens
adds = refl

pub authenticate-created :
    authenticate (auth_service (admin_service []) kv_store pair tokens jwt_secret) created env login
    ≡ done (logged_in (admin_service []) kv_store pair tokens jwt_secret signed made)
unfolding created
authenticate-created =
    authenticate-create_user (admin_service []) kv_store pair tokens jwt_secret (draws (pos 100))
      request empty shown env [] (pos 87400) signed creates adds signs

abbrev removed : Db
removed = (delete_user (admin_service []) (draws (pos 200)) (platform.uuid_string ann) created).1

deletes :
    delete_user (admin_service []) (draws (pos 200)) (platform.uuid_string ann) created
    ≡ (done true, removed)
unfolding created delete_user existing_user user_key decrypt_user open_record
    decrypt_with_private_key decrypt_symmetric store_user create_user created_user created_auth
    encrypt_user seal_record encrypt_with_public_key encrypt_with_public_key_and_algorithm
    encrypt_symmetric ciphers platform user_to_proto map_role map_proto_role serde_of user_codec
    auth_codec sealed_codec beq algorithm_from_u32 algorithm_as_u32 via_codec pair_codec nat_codec
    option_codec bytes_codec starts_with bool_codec int_codec role_as_u8
deletes = refl

creates_db : create_user (admin_service []) (draws (pos 100)) request empty ≡ (done shown, created)
unfolding created create_user created_user created_auth encrypt_user seal_record
    encrypt_with_public_key encrypt_with_public_key_and_algorithm encrypt_symmetric ciphers platform
    user_to_proto map_role map_proto_role serde_of user_codec auth_codec sealed_codec
creates_db = refl

authenticate-delete_user_example :
    HoldsUser (admin_service []) kv_store pair removed ann (
      deactivated
        (admin_service [])
        kv_store
        pair
        tokens
        jwt_secret
        (draws (pos 100))
        (draws (pos 200))
        request)
    × (authenticate
          (auth_service (admin_service []) kv_store pair tokens jwt_secret)
          removed
          env
          login
        ≡ done (logged_in (admin_service []) kv_store pair tokens jwt_secret signed made))
authenticate-delete_user_example =
    authenticate-delete_user (admin_service []) kv_store pair tokens jwt_secret (draws (pos 100))
      (draws (pos 200)) request empty created removed shown env [] (pos 87400) signed refl
      creates_db deletes adds signs

abbrev change : UpdateUserRequest
change = record {
  id = ann;
  email = none;
  display_name = some (ascii "Ann B");
  role = none;
  active = none;
  password = some (ascii "new");
}

updates :
    (update_user (admin_service []) (draws (pos 300)) change created).0
    ≡ done (record shown { display_name = ascii "Ann B" })
unfolding created update_user with_fields change_password update_password mfa_of existing_user
    user_key decrypt_user open_record decrypt_with_private_key decrypt_symmetric store_user
    create_user created_user created_auth encrypt_user seal_record encrypt_with_public_key
    encrypt_with_public_key_and_algorithm encrypt_symmetric ciphers platform user_to_proto map_role
    map_proto_role serde_of user_codec auth_codec sealed_codec beq algorithm_from_u32
    algorithm_as_u32 via_codec pair_codec nat_codec option_codec bytes_codec starts_with bool_codec
    int_codec role_as_u8
updates = refl

update_user_lem_example :
    Updated
      (admin_service [])
      kv_store
      pair
      (draws (pos 300))
      change
      created
      (record shown { display_name = ascii "Ann B" })
      (update_user (admin_service []) (draws (pos 300)) change created).1
update_user_lem_example =
    update_user_lem (admin_service []) kv_store pair (draws (pos 300)) change created
      (record shown { display_name = ascii "Ann B" }) updates

abbrev pub promotion : UpdateUserRequest
promotion = record {
  id = ann;
  email = none;
  display_name = none;
  role = some (pos 0);
  active = none;
  password = none;
}

pub promotes :
    (update_user (admin_service []) (draws (pos 300)) promotion created).0
    ≡ done (record shown { role = pos 0 })
unfolding created update_user with_fields change_password update_password mfa_of existing_user
    user_key decrypt_user open_record decrypt_with_private_key decrypt_symmetric store_user
    create_user created_user created_auth encrypt_user seal_record encrypt_with_public_key
    encrypt_with_public_key_and_algorithm encrypt_symmetric ciphers platform user_to_proto map_role
    map_proto_role serde_of user_codec auth_codec sealed_codec beq algorithm_from_u32
    algorithm_as_u32 via_codec pair_codec nat_codec option_codec bytes_codec starts_with bool_codec
    int_codec role_as_u8
promotes = refl
