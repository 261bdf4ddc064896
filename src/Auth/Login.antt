-- ===== src/Auth/Login.antt =====
-- When `authenticate` of auth/src/server.rs grants a login, and what a refusal tells.
use infovulcan.Common.{
  ◌≡◌, refl, ap, ◌∙◌, ◌↔◌, ◌⊎◌, inl, inr, true, false, none, some, [], arith, Bool-cases,
  Option-cases, Bytes, ascii,
}
use infovulcan.Common.Outcome.{Outcome, done, Outcome-cases, >>=-done, ok_or-done}
use infovulcan.Common.Text.{trim, is_empty}
use infovulcan.Grpc.{Code}
use infovulcan.Shared.User.{User, UserAuth}
use infovulcan.Auth.{
  AuthenticateRequest, AuthenticateResponse, Env, Auth, is_set, get_user_auth, get_user_profile,
  verify_totp, refused, user_info, claims_of, check_mfa, issue, login, authenticate,
}

module _ {DateTime S : Type 0} (a : Auth DateTime S) where
  -- The account has no second factor, or it is switched off, or the token given is good.
  abbrev pub PassesMfa : Env DateTime → UserAuth → Bytes → Type 0
  PassesMfa env user_auth mfa_token =
      (user_auth.mfa_secret ≡ none)
      ⊎ ((secret : Bytes) × (user_auth.mfa_secret ≡ some secret)
          × ((is_set env.mfa_disabled ≡ true)
              ⊎ ((is_empty (trim mfa_token) ≡ false)
                  × (verify_totp a secret (trim mfa_token) env.now ≡ done true))))

  abbrev pub Issues : S → Env DateTime → UserAuth → AuthenticateResponse DateTime → Type 0
  Issues s env user_auth response =
      (user : User DateTime) × (expires : DateTime) × (token : Bytes) × (get_user_profile a s
          user_auth.user_id
        ≡ done (some user))
      × (a.tokens.add_day env.now ≡ some expires)
      × (a.tokens.jwt_encode a.jwt_secret (claims_of a user expires) ≡ some token)
      × (response ≡ record {
        success = true;
        session_token = token;
        error = [];
        user = some (user_info a user);
      })

  -- What a login needs: the right password, the second factor, and a profile to sign a token for.
  abbrev pub Grants :
      S → Env DateTime → AuthenticateRequest → AuthenticateResponse DateTime → Type 0
  Grants s env req response =
      (user_auth : UserAuth) × (get_user_auth a s req.username ≡ done (some user_auth))
      × (a.platform.verify_password user_auth.password_hash req.password ≡ some true)
      × PassesMfa env user_auth req.mfa_token
      × Issues s env user_auth response

  check_mfa-done :
      (env : Env DateTime) (user_auth : UserAuth) (mfa_token : Bytes)
      → check_mfa a env user_auth mfa_token ≡ done none
      → PassesMfa env user_auth mfa_token
  unfolding check_mfa
  check_mfa-done env user_auth mfa_token h = elim (Option-cases user_auth.mfa_secret) [
    | inl e ↦ inl e
    | inr (secret, e) ↦ inr (
      secret,
      e,
      elim (Bool-cases (is_set env.mfa_disabled)) [
        | inl d ↦ inl d
        | inr d ↦ inr (
          ground (arith, h, e, d),
          elim (Outcome-cases (verify_totp a secret (trim mfa_token) env.now)) [
            | inl (good, v) ↦ ground (arith, h, e, d, v)
            | inr (x, v) ↦ ground (arith, h, e, d, v)
          ],
        )
      ],
    )
  ]

  PassesMfa-check_mfa :
      (env : Env DateTime) (user_auth : UserAuth) (mfa_token : Bytes)
      → PassesMfa env user_auth mfa_token
      → check_mfa a env user_auth mfa_token ≡ done none
  unfolding check_mfa
  PassesMfa-check_mfa env user_auth mfa_token (inl e) = rw e refl
  PassesMfa-check_mfa env user_auth mfa_token (inr (secret, e, inl d)) = rw (e, d) refl
  PassesMfa-check_mfa env user_auth mfa_token (inr (secret, e, inr (t, v))) =
      ground (arith, e, t, v)

  issue-done :
      (s : S) (env : Env DateTime) (user_auth : UserAuth) (r : AuthenticateResponse DateTime)
      → issue a s env user_auth ≡ done r
      → Issues s env user_auth r
  unfolding issue
  issue-done s env user_auth r h =
      let (found, e1, h1) = >>=-done _ _ r h in
      let (user, e2, h2) = ok_or-done found Code.internal _ r h1 in
      let (expires, e3, h3) = ok_or-done (a.tokens.add_day env.now) Code.internal _ r h2 in
      let (token, e4, h4) =
        ok_or-done (a.tokens.jwt_encode a.jwt_secret (claims_of a user expires)) Code.internal _ r
          h3 in
      (user, expires, token, e1 ∙ ap done e2, e3, e4, ground (arith, h4))

  Issues-issue :
      (s : S) (env : Env DateTime) (user_auth : UserAuth) (r : AuthenticateResponse DateTime)
      → Issues s env user_auth r
      → (issue a s env user_auth ≡ done r) × (r.success ≡ true)
  unfolding issue
  Issues-issue s env user_auth r (user, expires, token, e1, e2, e3, e4) =
      (rw (e1, e2, e3, e4) refl, ap (λ (x : AuthenticateResponse DateTime). x.success) e4)

  login-done :
      (s : S) (env : Env DateTime) (req : AuthenticateRequest) (user_auth : UserAuth)
      (r : AuthenticateResponse DateTime)
      → login a s env req user_auth ≡ done r
      → r.success ≡ true
      → (a.platform.verify_password user_auth.password_hash req.password ≡ some true)
        × PassesMfa env user_auth req.mfa_token
        × Issues s env user_auth r
  unfolding login refused
  login-done s env req user_auth r h k =
      let (verified, e1, h1) =
        ok_or-done (a.platform.verify_password user_auth.password_hash req.password) Code.internal _
          r h in
      elim (Bool-cases verified) [
        | inr f ↦ absurd (ground (arith, h1, f, k))
        | inl t ↦
            let (stop, e2, h2) =
              >>=-done (check_mfa a env user_auth req.mfa_token) _ r (rw t at h1) in
            elim (Option-cases stop) [
              | inr (x, e) ↦ absurd (ground (arith, h2, e, k))
              | inl e ↦ (
                e1 ∙ ap some t,
                check_mfa-done env user_auth req.mfa_token (e2 ∙ ap done e),
                issue-done s env user_auth r (rw e at h2),
              )
            ]
      ]

  refused-success :
      (error : Bytes) (r : AuthenticateResponse DateTime)
      → ◌≡◌ {A = Outcome Code (AuthenticateResponse DateTime)} (done (refused a error)) (done r)
      → r.success ≡ true
      → ⊥
  unfolding refused
  refused-success error r h k = ground (arith, h, k)

  -- A login is answered with success exactly when the name has credentials, the password verifies
  -- against their hash, the second factor is not enrolled, is switched off by `MFA_DISABLED`, or is
  -- given by a token that is not blank and that checks against the secret once trimmed, and the
  -- profile of the account is there to sign a token for; the answer then holds that token and that
  -- profile.
  pub authenticate-Grants :
      (s : S) (env : Env DateTime) (req : AuthenticateRequest) (r : AuthenticateResponse DateTime)
      → ((authenticate a s env req ≡ done r) × (r.success ≡ true)) ↔ Grants s env req r
  unfolding authenticate login
  authenticate-Grants s env req r = (
    λ (h, k).
        let (found, e1, h1) = >>=-done (get_user_auth a s req.username) _ r h in
        elim (Option-cases found) [
          | inl e ↦ absurd (refused-success _ r (rw e at h1) k)
          | inr (user_auth, e) ↦
              let (v, m, g) = login-done s env req user_auth r (rw e at h1) k in
              (user_auth, e1 ∙ ap done e, v, m, g)
        ],
    λ (user_auth, e, v, m, g).
        let done_r = Issues-issue s env user_auth r g in
        (rw (e, v, PassesMfa-check_mfa env user_auth req.mfa_token m) done_r.0, done_r.1),
  )

  -- An unknown name and a wrong password are answered alike, without a token, when the database
  -- answers and the hash stored can be parsed.
  pub authenticate_alike :
      (s : S) (env : Env DateTime) (unknown known : AuthenticateRequest) (user_auth : UserAuth)
      → get_user_auth a s unknown.username ≡ done none
      → get_user_auth a s known.username ≡ done (some user_auth)
      → a.platform.verify_password user_auth.password_hash known.password ≡ some false
      → (authenticate a s env unknown ≡ authenticate a s env known)
        × (authenticate a s env known ≡ done (refused a (ascii "Invalid credentials")))
  unfolding authenticate login
  authenticate_alike s env unknown known user_auth e1 e2 v = rw (e1, e2, v) (refl, refl)
