-- ===== src/Lbrp/Tests.antt =====
-- The gateway of lbrp/src on a concrete backend.
use infovulcan.Common.{
  ◌≡◌, refl, ◌⊎◌, true, false, Option, none, some, [], ◌++◌, arith, Bytes, ascii,
}
use infovulcan.Common.Int.{ℤ, pos}
use infovulcan.Common.Outcome.{Outcome, done, failed}
use infovulcan.Admin.{created_auth, ProtoUser, update_user}
use infovulcan.Auth.{Claims, authenticate, claims_of}
use infovulcan.Accounts.Deployment.{admin_service, platform, tokens, Db, jwt_secret}
use infovulcan.Accounts.Tests.{
  shown as created_shown, promotes, promotion, draws, ann, kv_store, pair, env, login, made, signed,
  adds, created, authenticate-created,
}
use infovulcan.Accounts.Sessions.{service, answer, auth, reads_auth, reads_profile}
use infovulcan.Grpc.{Code}
use infovulcan.Custodian.Wire.{Clock, proto_to_next_action}
use infovulcan.Lbrp.{Status, bearer}
use infovulcan.Lbrp.Actions.{ApiNextActionInput, to_proto_next_action}
use infovulcan.Lbrp.Actions.RoundTrip.{reply, shown, reply-to_proto_next_action}
use infovulcan.Lbrp.Routes.{
  UpdateUserPayload, user, Clients, ApiRoute, guarded, LoginRequest, empty, token, login_reply,
}
use infovulcan.Lbrp.Routes.App.{app, handle}
use infovulcan.Lbrp.Routes.App
use infovulcan.Lbrp.Routes.Access.{app-guarded, login-guarded}
use infovulcan.Lbrp.Routes.Roles.{Promoted, any_role_promotes}

clock : Clock ℤ
clock = record {
  to_timestamp = λ t. record { seconds = t; nanos = pos 0 };
  from_timestamp = λ seconds nanos. some seconds;
  default_time = pos 0;
  nanos_of = λ t. 0;
  nanos-to_timestamp = λ t. refl;
  from_timestamp-to_timestamp = λ t. refl;
  to_timestamp-from_timestamp = λ seconds t e. ground (arith, e);
}

reply-to_proto_next_action_example :
    reply clock
      (proto_to_next_action clock (to_proto_next_action (ApiNextActionInput.follow_up (pos 9))))
    ≡ shown (ApiNextActionInput.follow_up (pos 9))
unfolding clock
reply-to_proto_next_action_example =
    reply-to_proto_next_action clock (ApiNextActionInput.follow_up (pos 9)) (pos 9, refl)

abbrev stopped : Status
stopped = record { code = Code.unavailable; message = [] }

abbrev of_outcome : {A : Type 0} → Outcome Code A → Outcome Status A
of_outcome (done a) = done a
of_outcome (failed e) = failed (record { code = e; message = [] })

-- Only the authentication service is up.
abbrev clients : Clients ℤ Db
clients = record {
  display = λ e. e.message;
  authenticate = λ req s. (of_outcome (authenticate service s env req), s);
  auth_health = λ s. true;
  cluster_status = λ s. false;
  create_user = λ req s. (failed stopped, s);
  list_users = λ req s. (failed stopped, s);
  get_user = λ id s. (failed stopped, s);
  update_user = λ req s. (failed stopped, s);
  delete_user = λ id s. (failed stopped, s);
  create_ticket = λ req s. (failed stopped, s);
  get_ticket = λ id s. (failed stopped, s);
  query_tickets = λ req s. (failed stopped, s);
  update_ticket = λ req s. (failed stopped, s);
}

abbrev found : {A : Type 0} → Outcome Code A → Outcome Status (Option A)
found (done a) = done (some a)
found (failed e) = failed (record { code = e; message = [] })

abbrev payload : LoginRequest
payload = record { username = ascii "ann"; password = ascii "pw"; mfa_token = none }

answers : (clients.authenticate login created).0 ≡ done answer
answers = rw authenticate-created refl

replies : (App.login clients payload created).0 ≡ (200, token signed)
unfolding App.login login_reply
replies = rw authenticate-created refl

abbrev decode : Bytes → Option Claims
decode = tokens.jwt_decode (pos 2000) jwt_secret

login-guarded_example :
    app clients decode (some (bearer ++ signed)) (guarded (ApiRoute.get_ticket 3)) created
    ≡ handle clients (claims_of service made (pos 87400)) (ApiRoute.get_ticket 3) created
unfolding platform created_auth
login-guarded_example =
    login-guarded clients service created created created env payload answer signed auth made
      (pos 87400) (pos 2000) (ApiRoute.get_ticket 3) answers authenticate-created replies reads_auth
      reads_profile adds refl

app-guarded_example :
    (app clients decode none (guarded (ApiRoute.get_ticket 3)) created ≡ ((401, empty), created))
    ⊎ ((jwt : Bytes) × (claims : Claims) × (none ≡ some (bearer ++ jwt))
        × (decode jwt ≡ some claims)
        × (app clients decode none (guarded (ApiRoute.get_ticket 3)) created
            ≡ handle clients claims (ApiRoute.get_ticket 3) created))
app-guarded_example = app-guarded clients decode none (ApiRoute.get_ticket 3) created

abbrev claims : Bytes → Claims
claims role = record { sub = ascii "ann"; exp = 9; role = role }

-- Authentication and the administration of users are up.
abbrev administered : Clients ℤ Db
administered = record clients {
  update_user = λ req s.
      let (outcome, next) = update_user (admin_service []) (draws (pos 300)) req s in
      (found outcome, next);
}

abbrev to_admin : UpdateUserPayload
to_admin = record {
  email = none;
  display_name = none;
  role = some (pos 0);
  active = none;
  password = none;
}

abbrev promoted : ProtoUser
promoted = record created_shown { role = pos 0 }

told : (administered.update_user promotion created).0 ≡ done (some promoted)
told = rw promotes refl

abbrev read_only : Bytes → Option Claims
read_only jwt = some (claims (ascii "ReadOnly"))

any_role_promotes_example :
    let answered =
      app administered read_only
        (some (bearer ++ signed))
        (guarded (ApiRoute.update_user ann to_admin))
        created in
    (answered.0 ≡ (200, user promoted))
    × Promoted (admin_service []) kv_store pair ann created answered.1
any_role_promotes_example =
    any_role_promotes administered (admin_service []) kv_store pair read_only (draws (pos 300))
      signed (claims (ascii "ReadOnly")) ann to_admin created promoted refl refl told refl promotes
