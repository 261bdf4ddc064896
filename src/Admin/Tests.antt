-- ===== src/Admin/Tests.antt =====
-- The pages of admin/src/server.rs over two rows, of which one does not decrypt.
use infovulcan.Common.{
  ◌≡◌, refl, true, false, none, List, [], ◌∷◌, arith, length, Bytes, ascii, beq, starts_with,
}
use mathlib.Core.List.{Perm}
use infovulcan.Common.Int.{ℤ, pos}
use infovulcan.Common.Outcome.{Outcome, done, failed}
use infovulcan.Serde.Codec.{
  serde_of, via_codec, pair_codec, nat_codec, bytes_codec, bool_codec, int_codec, option_codec,
}
use infovulcan.Grpc.{Code}
use infovulcan.Shared.User.{User, manager, role_as_u8}
use infovulcan.Shared.Encryption.{
  Random, algorithm_as_u32, algorithm_from_u32, encrypt_symmetric, decrypt_symmetric,
  encrypt_with_public_key, encrypt_with_public_key_and_algorithm, decrypt_with_private_key,
}
use infovulcan.Accounts.{open_record, seal_record}
use infovulcan.Accounts.Sample.{ciphers, sealed_codec, user_codec}
use infovulcan.Accounts.Deployment.{platform, empty, admin_service}
use infovulcan.Admin.{ProtoUser, map_proto_role, user_to_proto, encrypt_user, decrypt_user}
use infovulcan.Admin.Listing.{decodable}
use infovulcan.Admin.Listing.Sorted.{IsSorted}
use infovulcan.Admin.Listing.Pages.{Decrypts, walk, walk_lem}

abbrev random : Random
random = record { salt = none; seed = 3 ∷ []; nonce = 4 ∷ [] }

abbrev user : Bytes → User ℤ
user name = record {
  user_id = name;
  username = name;
  display_name = [];
  email = [];
  role = manager;
  is_active = true;
  mfa_enabled = false;
  last_login = none;
  created_at = pos 1;
  updated_at = pos 1;
}

abbrev value_of : Outcome Code Bytes → Bytes
value_of (done v) = v
value_of (failed e) = []

abbrev row : Bytes → Bytes × Bytes
row name = (name, value_of (encrypt_user (admin_service []) random (user name)))

abbrev rows : List (Bytes × Bytes)
rows = row (ascii "bob") ∷ (ascii "x", 1 ∷ []) ∷ row (ascii "ann") ∷ []

two : length (decodable (admin_service rows) rows) ≡ 2
unfolding encrypt_user seal_record encrypt_with_public_key decodable decrypt_user
    encrypt_with_public_key_and_algorithm encrypt_symmetric ciphers platform user_to_proto
    map_proto_role serde_of user_codec sealed_codec open_record decrypt_with_private_key
    decrypt_symmetric beq algorithm_from_u32 algorithm_as_u32 via_codec pair_codec nat_codec
    option_codec bytes_codec starts_with bool_codec int_codec role_as_u8
two = refl

walk_lem_example :
    (users : List ProtoUser) × (walk (admin_service rows) empty 1 2 ≡ done users)
    × IsSorted users
    × Perm users (decodable (admin_service rows) rows)
    × Decrypts (admin_service rows) rows (decodable (admin_service rows) rows)
walk_lem_example =
    walk_lem (admin_service rows) empty 1 rows refl 2 (omega arith) (omega arith)
      (omega (arith, two))
