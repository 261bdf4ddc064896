-- ===== src/Auth/Session.antt =====
-- The token that `authenticate` of auth/src/server.rs issues, given back to `validate_session`.
use infovulcan.Common.{◌≡◌, ap, ◌∙◌, true, Option, none, some, [], arith, length, Bytes, ascii}
use infovulcan.Common.Int.{ℤ, pos, le_ℤ}
use infovulcan.Common.Outcome.{done}
use infovulcan.Shared.User.{User, UserAuth}
use infovulcan.Auth.{
  AuthenticateRequest, AuthenticateResponse, ValidateSessionResponse, Env, Auth, usize_or_zero,
  get_user_auth, get_user_profile, user_info, claims_of, authenticate, session_of, validate_session,
  invalid_session,
}
use infovulcan.Auth.Login.{authenticate-Grants}

module _ {DateTime S : Type 0} (a : Auth DateTime S) where
  -- What `validate_session` answers for a live token of a user.
  abbrev pub session_answer : Option (User DateTime) → ValidateSessionResponse DateTime
  session_answer none = invalid_session a (ascii "User not found")
  session_answer (some user) = record { valid = true; user = some (user_info a user); error = [] }

  validate_session-live :
      (user : User DateTime) (expires : DateTime) (token : Bytes)
      → length user.user_id ≡ 16
      → a.tokens.jwt_encode a.jwt_secret (claims_of a user expires) ≡ some token
      → (later : S) (now : ℤ) (found : Option (User DateTime))
      → le_ℤ now (pos (usize_or_zero (a.platform.timestamp expires))) ≡ true
      → get_user_profile a later user.user_id ≡ done found
      → validate_session a later now token ≡ done (session_answer found)
  unfolding validate_session session_of claims_of
  validate_session-live user expires token n e later now found t g =
      let read =
        a.tokens.jwt_decode-jwt_encode a.jwt_secret (claims_of a user expires) token now e t in
      let parsed = a.platform.parse_uuid-uuid_string user.user_id n in
      ground (arith, read, parsed, g)

  -- The token of a login that succeeded is, until a day after the login, a valid session in every
  -- later state in which the profile of the user can be read, and shows her profile as it is then;
  -- where the profile is gone the session is invalid. The user is the one whose profile is under
  -- the uuid of the credentials, and her uuid has 16 bytes.
  pub validate_session-authenticate :
      (s later : S) (env : Env DateTime) (req : AuthenticateRequest)
      (r : AuthenticateResponse DateTime) (user_auth : UserAuth) (user : User DateTime)
      (expires : DateTime) (now : ℤ) (found : Option (User DateTime))
      → authenticate a s env req ≡ done r
      → r.success ≡ true
      → get_user_auth a s req.username ≡ done (some user_auth)
      → get_user_profile a s user_auth.user_id ≡ done (some user)
      → length user.user_id ≡ 16
      → a.tokens.add_day env.now ≡ some expires
      → le_ℤ now (pos (usize_or_zero (a.platform.timestamp expires))) ≡ true
      → get_user_profile a later user.user_id ≡ done found
      → (r.user ≡ some (user_info a user))
        × (validate_session a later now r.session_token ≡ done (session_answer found))
  validate_session-authenticate s later env req r user_auth user expires now found h k f g n d t e =
      let (user_auth', e1, e2, e3, (user', expires', token, e4, e5, e6, e7)) =
        (authenticate-Grants a s env req r).0 (h, k) in
      let same_auth : user_auth' ≡ user_auth = ground (arith, e1, f) in
      let same_user : user' ≡ user = ground (arith, e4, g, same_auth) in
      let same_expires : expires' ≡ expires = ground (arith, e5, d) in
      let signed : a.tokens.jwt_encode a.jwt_secret (claims_of a user expires) ≡ some token =
        ground (arith, e6, same_user, same_expires) in
      (
        ap (λ (x : AuthenticateResponse DateTime). x.user) e7
            ∙ ap (λ u. some (user_info a u)) same_user,
        rw (ap (λ (x : AuthenticateResponse DateTime). x.session_token) e7)
            (validate_session-live user expires token n signed later now found t e),
      )
