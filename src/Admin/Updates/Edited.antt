-- ===== src/Admin/Updates/Edited.antt =====
-- What an update through admin/src/server.rs changes of an account, field by field.
use infovulcan.Common.{
  ◌≡◌, refl, sym, ap, ◌∙◌, subst, ◌⊎◌, inl, inr, Option, none, some, arith, Bytes,
}
use infovulcan.Common.Outcome.{Outcome-cases, done, done_inj}
use infovulcan.Kv.{IsStore}
use infovulcan.Shared.User.{User, UserAuth, AuthMethod}
use infovulcan.Accounts.{auth_collection, auth_key, open_record}
use infovulcan.Accounts.Sealed.{HasPair}
use infovulcan.Admin.{ProtoUser, UpdateUserRequest, Draws, Admin, mfa_of, with_fields, update_user}
use infovulcan.Admin.Users.{HoldsUser, HoldsAuth, KeepsOthers}
use infovulcan.Admin.Updates.Fields.{Edited, Shows, Edited-with_fields, Shows-user_to_proto}
use infovulcan.Admin.Updates.{Finds, Changed, update_user-with_fields}

module _ {DateTime S : Type 0} (a : Admin DateTime S) (store : IsStore a.kv)
    (pair : HasPair a.platform a.keys a.platform.users) where
  -- The second factor of the credentials in place is kept, and there is none where none were.
  abbrev pub KeepsMfa : S → (username : Bytes) → UserAuth → Type 0
  KeepsMfa s username auth =
      ((a.kv.get s auth_collection (auth_key username) ≡ done none)
        × (auth.mfa_secret ≡ none)
        × (auth.mfa_method ≡ some AuthMethod.password))
      ⊎ ((prior : UserAuth) × HoldsAuth a store pair s username prior
          × (auth.mfa_secret ≡ prior.mfa_secret)
          × (auth.mfa_method ≡ prior.mfa_method))

  -- What becomes of the credentials: without a new password they are as they were; with one they hold
  -- a hash of it and the second factor of before.
  abbrev pub Credentials : Draws DateTime → S → User DateTime → Option Bytes → S → Type 0
  Credentials draws s user none s' =
      (key : Bytes) → a.kv.get s' auth_collection key ≡ a.kv.get s auth_collection key
  Credentials draws s user (some password) s' =
      (auth : UserAuth) × (a.platform.hash_password draws.salt password ≡ some auth.password_hash)
      × (auth.user_id ≡ user.user_id)
      × KeepsMfa s user.username auth
      × HoldsAuth a store pair s' user.username auth

  mfa_of-opened :
      (value : Bytes) (prior : UserAuth)
      → open_record a.platform a.keys a.platform.auths value ≡ done prior
      → mfa_of a (some value) ≡ done (prior.mfa_secret, prior.mfa_method)
  unfolding mfa_of
  mfa_of-opened value prior p = rw (mfa_of, p) refl

  KeepsMfa-mfa_of :
      (s : S) (username user_id hash : Bytes) (found : Option Bytes)
      (mfa : Option Bytes × Option AuthMethod)
      → a.kv.get s auth_collection (auth_key username) ≡ done found
      → mfa_of a found ≡ done mfa
      → KeepsMfa s username (record {
        user_id = user_id;
        password_hash = hash;
        mfa_secret = mfa.0;
        mfa_method = mfa.1;
      })
  unfolding mfa_of
  KeepsMfa-mfa_of s username user_id hash none mfa e h = inl (
    e,
    sym (ap (λ (m : Option Bytes × Option AuthMethod). m.0) (done_inj h)),
    sym (ap (λ (m : Option Bytes × Option AuthMethod). m.1) (done_inj h)),
  )
  KeepsMfa-mfa_of s username user_id hash (some value) mfa e h =
      elim (Outcome-cases (open_record a.platform a.keys a.platform.auths value)) [
        | inr (x, p) ↦ absurd (ground (arith, p, h))
        | inl (prior, p) ↦
            let same : (prior.mfa_secret, prior.mfa_method) ≡ mfa =
              done_inj (sym (mfa_of-opened value prior p) ∙ h) in
            inr (
              prior,
              (value, e, p),
              sym (ap (λ (m : Option Bytes × Option AuthMethod). m.0) same),
              sym (ap (λ (m : Option Bytes × Option AuthMethod). m.1) same),
            )
      ]

  Credentials-of_Changed :
      (draws : Draws DateTime) (s s' : S) (user : User DateTime) (password : Option Bytes)
      → Changed a store pair draws s user password s'
      → Credentials draws s user password s'
  Credentials-of_Changed draws s s' user none h = h
  Credentials-of_Changed draws s s' user (some password) (hash, found, mfa, e1, e2, e3, o) = (
    record { user_id = user.user_id; password_hash = hash; mfa_secret = mfa.0; mfa_method = mfa.1 },
    e1,
    refl,
    KeepsMfa-mfa_of s user.username user.user_id hash found mfa e2 e3,
    o,
  )

  -- The profile of before and the one of after, found under the uuid of the request.
  abbrev pub Updated : Draws DateTime → UpdateUserRequest → S → ProtoUser → S → Type 0
  Updated draws req s r s' =
      (key : Bytes) × (old : User DateTime) × (new : User DateTime) × Finds a store pair s req.id
        key old
      × HoldsUser a store pair s' old.user_id new
      × Edited a draws req old new
      × Credentials draws s old req.password s'
      × KeepsOthers a store pair s s' old.user_id old.username
      × Shows a new r

  -- On a store, with the keys of a pair, an update that succeeds found the profile under the uuid of
  -- the request. Afterwards the profile has each field that the request gives, a role by its number
  -- in the protocol, the time of the update, and every other field as it was. With a password in the
  -- request the credentials of the same name hold its hash and the second factor that was there, or
  -- none where there were no credentials; without one they are as they were. No other entry of the
  -- database differs, and the answer shows the new profile.
  pub update_user_lem :
      (draws : Draws DateTime) (req : UpdateUserRequest) (s : S) (r : ProtoUser)
      → (update_user a draws req s).0 ≡ done r
      → Updated draws req s r (update_user a draws req s).1
  update_user_lem draws req s r h =
      let (key, old, found, holds, changed, others, shown) =
        update_user-with_fields a store pair draws req s r h in
      let new = with_fields a draws req old in
      (
        key,
        old,
        new,
        found,
        holds,
        Edited-with_fields a draws req old,
        Credentials-of_Changed draws s (update_user a draws req s).1 old req.password changed,
        others,
        subst (Shows a new) (sym shown) (Shows-user_to_proto a new),
      )
