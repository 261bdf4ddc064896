-- ===== src/Accounts/Replicated/Tests.antt =====
-- An account in a concrete database whose writes all commit.
use infovulcan.Common.{
  ◌≡◌, refl, ◌⊎◌, inl, inr, Option, none, some, [], ascii, beq, Result, ok, err,
}
use infovulcan.Common.Int.{ℤ, pos}
use infovulcan.Common.Outcome.{done}
use infovulcan.Serde.Codec.{serde_of}
use infovulcan.Db.Sample.{backend}
use infovulcan.Db.Machine.{DbResponse, apply, apply_entry}
use infovulcan.Db.Server.{ClientWrite}
use infovulcan.Db.Server.Calls.{Commits}
use infovulcan.Db.Server.KeyValues.{put_call, get_call}
use infovulcan.Db.Server.KeyValues.Store.{kv}
use infovulcan.Sled.Model.{sled_model}
use infovulcan.Sled.Rows.{find, ins}
use infovulcan.Shared.Encryption.{
  encrypt_symmetric, encrypt_with_public_key, encrypt_with_public_key_and_algorithm,
}
use infovulcan.Accounts.{seal_record, role_debug}
use infovulcan.Accounts.Sample.{ciphers, sealed_codec, user_codec, auth_codec}
use infovulcan.Accounts.Deployment.{platform, keys, tokens, jwt_secret}
use infovulcan.Accounts.Tests.{draws, request, shown, pair, env, signed, adds}
use infovulcan.Accounts.Replicated.{on_database, auth_on_database, granted, authenticate_replicated}
use infovulcan.Admin.{
  Admin, map_role, map_proto_role, user_to_proto, encrypt_user, created_user, created_auth,
  create_user,
}
use infovulcan.Auth.{authenticate, claims_of}

abbrev Db : Type 0
Db = backend.sled.Db

-- An entry that the state machine refuses is reported as a failure, without its effects.
abbrev accepted : Result DbResponse × Db → Db → Option DbResponse × Db
accepted (ok r, d') d = (some r, d')
accepted (err e, d') d = (none, d)

write_through : ClientWrite backend
write_through entry d = accepted (apply backend entry d) d

write_through-Commits : Commits backend write_through
unfolding write_through Commits
write_through-Commits entry d = either (apply backend entry d)
  where
    either :
        (x : Result DbResponse × Db)
        → ((accepted x d).0 ≡ none)
          ⊎ ((r : DbResponse) × (d' : Db) × (x ≡ (ok r, d')) × (accepted x d ≡ (some r, d')))
    either (ok r, d') = inr (r, d', refl, refl)
    either (err e, d') = inl refl

abbrev admin : Admin ℤ Db
admin = record { kv = kv backend write_through; platform = platform; keys = keys }

abbrev start : Db
start = backend.sled.empty

creates :
    (create_user
      (on_database backend write_through admin write_through-Commits pair tokens jwt_secret)
      (draws (pos 100))
      request
      start).0
    ≡ done shown
unfolding create_user created_user created_auth encrypt_user seal_record encrypt_with_public_key
    encrypt_with_public_key_and_algorithm encrypt_symmetric ciphers platform user_to_proto map_role
    map_proto_role serde_of user_codec auth_codec sealed_codec kv put_call get_call write_through
    apply apply_entry backend sled_model find ins beq
creates = refl

signs :
    tokens.jwt_encode jwt_secret (
      claims_of
        (auth_on_database backend write_through admin write_through-Commits pair tokens jwt_secret)
        (created_user
          (on_database backend write_through admin write_through-Commits pair tokens jwt_secret)
          (draws (pos 100))
          request)
        (pos 87400))
    ≡ some signed
unfolding tokens claims_of created_user map_role role_debug platform
signs = refl

authenticate_replicated_example :
    authenticate
      (auth_on_database backend write_through admin write_through-Commits pair tokens jwt_secret)
      (create_user
        (on_database backend write_through admin write_through-Commits pair tokens jwt_secret)
        (draws (pos 100))
        request
        start).1
      env
      (record { username = ascii "ann"; password = ascii "pw"; mfa_token = [] })
    ≡ done (
        granted backend write_through admin write_through-Commits pair tokens jwt_secret signed
          (draws (pos 100))
          request)
authenticate_replicated_example =
    authenticate_replicated backend write_through admin write_through-Commits pair tokens jwt_secret
      (draws (pos 100)) request start shown env [] (pos 87400) signed creates adds signs
