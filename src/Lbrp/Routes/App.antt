-- ===== src/Lbrp/Routes/App.antt =====
-- What each route of lbrp/src/routes.rs does, and the router.
use infovulcan.Common.{ℕ, false, Option, some, [], map, Bytes}
use infovulcan.Common.Outcome.{done, failed}
use infovulcan.Auth.{Claims}
use infovulcan.Admin.{CreateUserRequest}
use infovulcan.Lbrp.{
  Status, ApiError, internal_error, not_found_error, from_status, auth_middleware,
}
use infovulcan.Lbrp.Actions.{to_proto_next_action}
use infovulcan.Lbrp.Routes.{
  Clients, Reply, OpenRoute, ApiRoute, Route, public_, guarded, LoginRequest, ListUsersParams,
  UpdateUserPayload, CreateTicketRequest, ListTicketsParams, UpdateTicketRequest, empty, users,
  ticket, tickets, api_ticket, answer, login_reply, user_reply, health_reply, or_value, map_option,
}

module _ {DateTime S : Type 0} (c : Clients DateTime S) where
  -- The error of a call about tickets that is answered as an internal one.
  abbrev hide : Status → ApiError
  hide e = internal_error (c.display e)

  abbrev hide_as_missing : Status → ApiError
  hide_as_missing e = not_found_error (c.display e)

  unfoldable pub login : LoginRequest → S → Reply × S
  login payload s = answer from_status login_reply (
      c.authenticate
        (record {
          username = payload.username;
          password = payload.password;
          mfa_token = or_value payload.mfa_token [];
        })
        s)

  unfoldable pub health : S → Reply × S
  health s = (health_reply (c.auth_health s) (c.cluster_status s), s)

  unfoldable pub create_user : CreateUserRequest → S → Reply × S
  create_user payload s = answer from_status (λ u. (201, empty)) (c.create_user payload s)

  unfoldable pub list_users : ListUsersParams → S → Reply × S
  list_users params s =
      answer from_status (λ r. (200, users r.users r.total_count))
        (c.list_users
          (record { page = or_value params.page 0; page_size = or_value params.page_size 0 }) s)

  unfoldable pub get_user : (id : Bytes) → S → Reply × S
  get_user id s = answer from_status user_reply (c.get_user id s)

  unfoldable pub update_user : (id : Bytes) → UpdateUserPayload → S → Reply × S
  update_user id payload s = answer from_status user_reply (
      c.update_user
        (record {
          id = id;
          email = payload.email;
          display_name = payload.display_name;
          role = payload.role;
          active = payload.active;
          password = payload.password;
        })
        s)

  unfoldable pub delete_user : (id : Bytes) → S → Reply × S
  delete_user id s = answer from_status (λ u. (204, empty)) (c.delete_user id s)

  unfoldable pub create_ticket : Claims → CreateTicketRequest → S → Reply × S
  create_ticket claims payload s =
      answer hide (λ t. (201, ticket (api_ticket t)))
        (c.create_ticket
          (record {
            title = payload.title;
            project = payload.project;
            account_uuid = payload.account_uuid;
            symptom = payload.symptom;
            priority = payload.priority;
            created_by_uuid = claims.sub;
          })
          s)

  unfoldable pub get_ticket : (id : ℕ) → S → Reply × S
  get_ticket id s = answer hide_as_missing (λ t. (200, ticket (api_ticket t))) (c.get_ticket id s)

  unfoldable pub list_tickets : ListTicketsParams → S → Reply × S
  list_tickets params s =
      answer hide (λ ts. (200, tickets (map api_ticket ts)))
        (c.query_tickets
          (record {
            status = params.status;
            assigned_to_uuid = params.assignee;
            account_uuid = params.account;
            project = params.project;
            include_deleted = or_value params.include_deleted false;
            limit = or_value params.limit 0;
          })
          s)

  unfoldable pub update_ticket : Claims → (id : ℕ) → UpdateTicketRequest → S → Reply × S
  update_ticket claims id payload s =
      answer hide (λ t. (200, ticket (api_ticket t)))
        (c.update_ticket
          (record {
            ticket_id = id;
            title = payload.title;
            project = payload.project;
            priority = payload.priority;
            status = payload.status;
            next_action = map_option to_proto_next_action payload.next_action;
            updated_by_uuid = some claims.sub;
          })
          s)

  unfoldable pub handle_open : OpenRoute → S → Reply × S
  handle_open (OpenRoute.login payload) s = login payload s
  handle_open OpenRoute.health s = health s
  handle_open (OpenRoute.create_user payload) s = create_user payload s

  unfoldable pub handle : Claims → ApiRoute → S → Reply × S
  handle claims (ApiRoute.list_users params) s = list_users params s
  handle claims (ApiRoute.get_user id) s = get_user id s
  handle claims (ApiRoute.update_user id payload) s = update_user id payload s
  handle claims (ApiRoute.delete_user id) s = delete_user id s
  handle claims (ApiRoute.create_ticket payload) s = create_ticket claims payload s
  handle claims (ApiRoute.get_ticket id) s = get_ticket id s
  handle claims (ApiRoute.list_tickets params) s = list_tickets params s
  handle claims (ApiRoute.update_ticket id payload) s = update_ticket claims id payload s

  -- The middleware stands before the guarded routes only.
  unfoldable pub app :
      (decode : Bytes → Option Claims) → (header : Option Bytes) → Route → S → Reply × S
  app decode header (public_ route) s = handle_open route s
  app decode header (guarded route) s = elim (auth_middleware decode header) [
    | failed status ↦ ((status, empty), s)
    | done claims ↦ handle claims route s
  ]
