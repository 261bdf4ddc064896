-- ===== src/Lbrp/Routes.antt =====
-- The handlers and the router of lbrp/src/routes.rs. The clients of the three services are a
-- parameter; a call of one answers or fails with a status, and changes the state of the backends.
pub mod App
pub mod Access
pub mod Roles
use infovulcan.Common.{
  ℕ, zero, suc, ◌+◌, ◌-◌, ◌*◌, ◌/◌, ◌%◌, ◌^◌, ◌≤◌, ◌<◌, ◌≡◌, refl, sym, ap, ◌∙◌, subst, ◌≢◌, ◌↔◌,
  ◌⊎◌, inl, inr, Bool, true, false, not, ◌&&◌, ◌||◌, Option, none, some, List, [], ◌∷◌, ◌++◌, map,
  arith, ltb, leb, ◌==◌, if◌then◌else◌, ltb→lt, lt→ltb, leb→le, le→leb, ==_iff, tests, Bool-cases,
  Option-cases, length, length-append, take, drop, replicate, filter, In, In-filter, of_In-filter,
  All, All-In, Bytes, ascii, beq, beq_refl, eq_of_beq, starts_with, starts_with-append, blt, ble,
  blt_irrefl, blt_trans, blt_total, Error, not_found, corrupt, Result, ok, err, or_err,
  Result-cases,
}
use infovulcan.Common.Int.{ℤ}
use infovulcan.Common.Outcome.{Outcome, done, failed}
use infovulcan.Auth.{Claims, AuthenticateRequest, AuthenticateResponse}
use infovulcan.Admin.{ProtoUser, CreateUserRequest, UpdateUserRequest}
use infovulcan.Admin.Listing.{ListUsersRequest, ListUsersResponse}
use infovulcan.Custodian.Wire.{ProtoNextAction}
use infovulcan.Lbrp.{
  Status, ApiError, unauthorized, internal_error, not_found_error, from_status, auth_middleware,
}
use infovulcan.Lbrp.Actions.{
  ApiNextAction, ApiNextActionInput, map_next_action, to_proto_next_action,
}

-- The fields of a ticket of custodian that the gateway shows.
pub record ProtoTicket : Type 0 where
  pub ticket_id : ℕ
  pub title : Bytes
  pub project : Bytes
  pub priority : ℤ
  pub status : ℤ
  pub next_action : Option ProtoNextAction

-- The fields of a creation that the gateway sets; the others are absent or empty.
pub record ProtoCreateTicket : Type 0 where
  pub title : Bytes
  pub project : Bytes
  pub account_uuid : Bytes
  pub symptom : ℤ
  pub priority : ℤ
  pub created_by_uuid : Bytes

-- The fields of an update that the gateway sets; the others are absent or empty.
pub record ProtoUpdateTicket : Type 0 where
  pub ticket_id : ℕ
  pub title : Option Bytes
  pub project : Option Bytes
  pub priority : Option ℤ
  pub status : Option ℤ
  pub next_action : Option ProtoNextAction
  pub updated_by_uuid : Option Bytes

pub record ProtoQueryTickets : Type 0 where
  pub status : Option ℕ
  pub assigned_to_uuid : Option Bytes
  pub account_uuid : Option Bytes
  pub project : Option Bytes
  pub include_deleted : Bool
  pub limit : ℕ

pub record LoginRequest : Type 0 where
  pub username : Bytes
  pub password : Bytes
  pub mfa_token : Option Bytes

pub record CreateTicketRequest : Type 0 where
  pub title : Bytes
  pub project : Bytes
  pub account_uuid : Bytes
  pub symptom : ℤ
  pub priority : ℤ

pub record UpdateTicketRequest : Type 0 where
  pub title : Option Bytes
  pub project : Option Bytes
  pub priority : Option ℤ
  pub status : Option ℤ
  pub next_action : Option ApiNextActionInput

pub record ListTicketsParams : Type 0 where
  pub status : Option ℕ
  pub assignee : Option Bytes
  pub account : Option Bytes
  pub project : Option Bytes
  pub include_deleted : Option Bool
  pub limit : Option ℕ

pub record ListUsersParams : Type 0 where
  pub page : Option ℕ
  pub page_size : Option ℕ

-- The payload of `PUT /admin/users/{id}`.
pub record UpdateUserPayload : Type 0 where
  pub email : Option Bytes
  pub display_name : Option Bytes
  pub role : Option ℤ
  pub active : Option Bool
  pub password : Option Bytes

pub record ApiTicket : Type 0 where
  pub ticket_id : ℕ
  pub title : Bytes
  pub project : Bytes
  pub priority : ℤ
  pub status : ℤ
  pub next_action : Option ApiNextAction

-- A request outside the middleware, with what its extractors read. Which routes the router puts
-- behind the middleware is said by these two types.
pub data OpenRoute : Type 0 where
  login : LoginRequest → OpenRoute
  health : OpenRoute
  create_user : CreateUserRequest → OpenRoute

-- A request behind the middleware.
pub data ApiRoute : Type 0 where
  list_users : ListUsersParams → ApiRoute
  get_user : (id : Bytes) → ApiRoute
  update_user : (id : Bytes) → UpdateUserPayload → ApiRoute
  delete_user : (id : Bytes) → ApiRoute
  create_ticket : CreateTicketRequest → ApiRoute
  get_ticket : (id : ℕ) → ApiRoute
  list_tickets : ListTicketsParams → ApiRoute
  update_ticket : (id : ℕ) → UpdateTicketRequest → ApiRoute

pub data Route : Type 0 where
  public_ : OpenRoute → Route
  guarded : ApiRoute → Route

-- The body of an answer; a user is shown with the fields of the message.
pub data Body : Type 0 where
  empty : Body
  token : Bytes → Body
  user : ProtoUser → Body
  users : List ProtoUser → (total_count : ℕ) → Body
  ticket : ApiTicket → Body
  tickets : List ApiTicket → Body
  services : (status auth custodian : Bytes) → Body
  error : (code message : Bytes) → Body

-- An answer: the HTTP status and the body.
abbrev pub Reply : Type 0
Reply = ℕ × Body

-- The calls of clients.rs that the handlers make, and the text of a status.
pub record Clients (DateTime S : Type 0) : Type 0 where
  pub display : Status → Bytes
  pub authenticate : AuthenticateRequest → S → Outcome Status (AuthenticateResponse DateTime) × S
  pub auth_health : S → Bool
  pub cluster_status : S → Bool
  pub create_user : CreateUserRequest → S → Outcome Status (Unit {0}) × S
  pub list_users : ListUsersRequest → S → Outcome Status ListUsersResponse × S
  pub get_user : Bytes → S → Outcome Status (Option ProtoUser) × S
  pub update_user : UpdateUserRequest → S → Outcome Status (Option ProtoUser) × S
  pub delete_user : Bytes → S → Outcome Status (Unit {0}) × S
  pub create_ticket : ProtoCreateTicket → S → Outcome Status ProtoTicket × S
  pub get_ticket : ℕ → S → Outcome Status ProtoTicket × S
  pub query_tickets : ProtoQueryTickets → S → Outcome Status (List ProtoTicket) × S
  pub update_ticket : ProtoUpdateTicket → S → Outcome Status ProtoTicket × S

abbrev pub or_value {ℓ} : {A : Type ℓ} → Option A → A → A
or_value none a = a
or_value (some b) a = b

abbrev pub map_option : {A B : Type 0} → (A → B) → Option A → Option B
map_option f none = none
map_option f (some a) = some (f a)

-- `From<custodian::Ticket>`
unfoldable pub api_ticket : ProtoTicket → ApiTicket
api_ticket t = record {
  ticket_id = t.ticket_id;
  title = t.title;
  project = t.project;
  priority = t.priority;
  status = t.status;
  next_action = elim t.next_action [ none ↦ none | some action ↦ map_next_action action ];
}

-- `IntoResponse` of an error.
abbrev pub error_reply : ApiError → Reply
error_reply e = (e.status, error e.code e.message)

-- The answer to the outcome of a call: its error by the first function, its value by the second.
abbrev pub answer :
    {S A : Type 0} → (Status → ApiError) → (A → Reply) → Outcome Status A × S → Reply × S
answer on_error reply (done a, s) = (reply a, s)
answer on_error reply (failed e, s) = (error_reply (on_error e), s)

unfoldable pub login_reply : {DateTime : Type 0} → AuthenticateResponse DateTime → Reply
login_reply r =
    if r.success then (200, token r.session_token) else error_reply (unauthorized r.error)

unfoldable pub user_reply : Option ProtoUser → Reply
user_reply none = error_reply (not_found_error (ascii "user not found"))
user_reply (some u) = (200, user u)

abbrev pub up_or_down : Bool → Bytes
up_or_down b = if b then ascii "up" else ascii "down"

unfoldable pub health_reply : (auth_ok custodian_ok : Bool) → Reply
health_reply auth_ok custodian_ok =
    if auth_ok && custodian_ok
    then (200, services (ascii "ok") (up_or_down auth_ok) (up_or_down custodian_ok))
    else (503, services (ascii "degraded") (up_or_down auth_ok) (up_or_down custodian_ok))
