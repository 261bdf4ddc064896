-- ===== src/Lbrp/Routes/Access.antt =====
-- Who gets through the router of lbrp/src/routes.rs.
use infovulcan.Common.{
  ◌≡◌, refl, sym, ap, ◌∙◌, ◌⊎◌, inl, inr, true, Option, none, some, [], ◌∷◌, ◌++◌, arith,
  Bool-cases, Option-cases, length, drop, Bytes, starts_with,
}
use infovulcan.Common.Int.{ℤ, pos, le_ℤ}
use infovulcan.Common.Outcome.{Outcome, done, failed}
use infovulcan.Shared.User.{User, UserAuth}
use infovulcan.Auth.{
  Auth, Env, Claims, AuthenticateRequest, AuthenticateResponse, usize_or_zero, get_user_auth,
  get_user_profile, claims_of, authenticate,
}
use infovulcan.Auth.Login.{authenticate-Grants}
use infovulcan.Lbrp.{Status, ApiError, from_status, bearer, auth_middleware}
use infovulcan.Lbrp.Routes.{
  answer, Clients, Reply, ApiRoute, guarded, LoginRequest, empty, token, login_reply, or_value,
}
use infovulcan.Lbrp.Routes.App.{handle, app, login}

-- A text that starts with the word is the word and the rest.
drop-starts_with : (p k : Bytes) → starts_with p k ≡ true → p ++ drop (length p) k ≡ k
unfolding starts_with
drop-starts_with [] k h = refl
drop-starts_with (x ∷ p) [] h = absurd (ground (arith, h))
drop-starts_with (x ∷ p) (y ∷ k) h =
    let rest : starts_with p k ≡ true = ground (arith, h) in
    let first : x ≡ y = ground (arith, h) in rw (first, drop-starts_with p k rest) refl

module _ {DateTime S : Type 0} (c : Clients DateTime S) (decode : Bytes → Option Claims) where
  -- A guarded request is refused with 401 and changes nothing, or its header is the bearer text of a
  -- token that decodes, and the handler runs with the claims of that token.
  pub app-guarded :
      (header : Option Bytes) (route : ApiRoute) (s : S)
      → (app c decode header (guarded route) s ≡ ((401, empty), s))
        ⊎ ((jwt : Bytes) × (claims : Claims) × (header ≡ some (bearer ++ jwt))
            × (decode jwt ≡ some claims)
            × (app c decode header (guarded route) s ≡ handle c claims route s))
  unfolding app auth_middleware starts_with
  app-guarded none route s = inl refl
  app-guarded (some text) route s = elim (Bool-cases (starts_with bearer text)) [
    | inr e ↦ inl (rw e refl)
    | inl e ↦ elim (Option-cases (decode (drop 7 text))) [
      | inl d ↦ inl (rw (e, d) refl)
      | inr (claims, d) ↦
          inr
            (drop 7 text, claims, ap some (sym (drop-starts_with bearer text e)), d, rw (e, d) refl)
    ]
  ]

pub passes :
    {DateTime S : Type 0} (c : Clients DateTime S) (decode : Bytes → Option Claims) (jwt : Bytes)
    (claims : Claims) (route : ApiRoute) (s : S)
    → decode jwt ≡ some claims
    → app c decode (some (bearer ++ jwt)) (guarded route) s ≡ handle c claims route s
unfolding app auth_middleware starts_with
passes c decode jwt claims route s e = ground (arith, e)

module _ {DateTime S D : Type 0} (c : Clients DateTime S) (a : Auth DateTime D) where
  abbrev request_of : LoginRequest → AuthenticateRequest
  request_of payload = record {
    username = payload.username;
    password = payload.password;
    mfa_token = or_value payload.mfa_token [];
  }

  login_reply-token :
      (r : AuthenticateResponse DateTime) (jwt : Bytes)
      → login_reply r ≡ (200, token jwt)
      → (r.success ≡ true) × (r.session_token ≡ jwt)
  unfolding login_reply
  login_reply-token r jwt h = elim (Bool-cases r.success) [
    | inl e ↦ (e, ground (arith, e, h))
    | inr e ↦ absurd (ground (arith, e, h))
  ]

  answer-done :
      {A : Type 0} (f : Status → ApiError) (g : A → Reply) (p : Outcome Status A × S) (x : A)
      → p.0 ≡ done x
      → (answer f g p).0 ≡ g x
  answer-done f g (done y, s) x h = ground (arith, h)
  answer-done f g (failed e, s) x h = absurd (ground (arith, h))

  -- When the gateway's authentication client answers as the authentication service does, a token
  -- that a login gives opens, until a day later, every guarded route: the handler runs, with the
  -- uuid and role of the user whose profile the login found. This holds with the same signing
  -- secret in both services.
  pub login-guarded :
      (st s : S) (d : D) (env : Env DateTime) (payload : LoginRequest)
      (r : AuthenticateResponse DateTime) (jwt : Bytes) (user_auth : UserAuth)
      (user : User DateTime) (expires : DateTime) (now : ℤ) (route : ApiRoute)
      → (c.authenticate (request_of payload) st).0 ≡ done r
      → authenticate a d env (request_of payload) ≡ done r
      → (login c payload st).0 ≡ (200, token jwt)
      → get_user_auth a d payload.username ≡ done (some user_auth)
      → get_user_profile a d user_auth.user_id ≡ done (some user)
      → a.tokens.add_day env.now ≡ some expires
      → le_ℤ now (pos (usize_or_zero (a.platform.timestamp expires))) ≡ true
      → app c (a.tokens.jwt_decode now a.jwt_secret) (some (bearer ++ jwt)) (guarded route) s
        ≡ handle c (claims_of a user expires) route s
  unfolding login claims_of
  login-guarded st s d env payload r jwt user_auth user expires now route h k l f g x t =
      let replied =
        answer-done from_status login_reply (c.authenticate (request_of payload) st) r h in
      let (granted, same_jwt) = login_reply-token r jwt (sym replied ∙ l) in
      let (user_auth', e1, e2, e3, (user', expires', jwt', e4, e5, e6, e7)) =
        (authenticate-Grants a d env (request_of payload) r).0 (k, granted) in
      let same_auth : user_auth' ≡ user_auth = ground (arith, e1, f) in
      let same_user : user' ≡ user = ground (arith, e4, g, same_auth) in
      let same_expires : expires' ≡ expires = ground (arith, e5, x) in
      let same : jwt' ≡ jwt =
        sym (ap (λ (y : AuthenticateResponse DateTime). y.session_token) e7) ∙ same_jwt in
      let signed : a.tokens.jwt_encode a.jwt_secret (claims_of a user expires) ≡ some jwt =
        ground (arith, e6, same_user, same_expires, same) in
      let read =
        a.tokens.jwt_decode-jwt_encode a.jwt_secret (claims_of a user expires) jwt now signed t in
      passes c (a.tokens.jwt_decode now a.jwt_secret) jwt (claims_of a user expires) route s read
