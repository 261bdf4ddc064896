-- ===== src/Admin/Updates.antt =====
-- What the calls of admin/src/server.rs that change an account leave in the database, on success.
pub mod Fields
pub mod Edited
use infovulcan.Common.{
  ◌≡◌, refl, sym, ap, ◌∙◌, subst, Bool, true, false, ◌&&◌, Option, none, some, arith, Bytes, beq,
}
use infovulcan.Common.Outcome.{Outcome, done, ok_or}
use infovulcan.Common.Action.{continue-done}
use infovulcan.Grpc.{Code}
use infovulcan.Kv.{IsStore}
use infovulcan.Kv.Store.{get-put_other}
use infovulcan.Shared.User.{User, UserAuth, AuthMethod}
use infovulcan.Accounts.{users_collection, auth_collection, auth_key, seal_record}
use infovulcan.Accounts.Sealed.{HasPair}
use infovulcan.Admin.{
  ProtoUser, UpdateUserRequest, Draws, Admin, user_key, user_to_proto, encrypt_user, mfa_of,
  update_password, existing_user, decrypt_user, with_fields, store_user, change_password,
  update_user, delete_user,
}
use infovulcan.Admin.Users.{
  HoldsUser, HoldsAuth, KeepsOthers, Holds-put, keeps_others, auth-users, ok_or-some,
}

module _ {DateTime S : Type 0} (a : Admin DateTime S) (store : IsStore a.kv)
    (pair : HasPair a.platform a.keys a.platform.users) where
  -- The profile is there, under the uuid that the text of the request names.
  abbrev pub Finds : S → Bytes → Bytes → User DateTime → Type 0
  Finds s id key user = (a.platform.parse_uuid id ≡ some key) × HoldsUser a store pair s key user

  existing_user-done :
      (id : Bytes) (s : S) (user : User DateTime)
      → (existing_user a id s).0 ≡ done user
      → (key : Bytes) × Finds s id key user × ((existing_user a id s).1 ≡ s)
  unfolding existing_user user_key decrypt_user
  existing_user-done id s user h =
      let (key, e1, g1, h1) = continue-done (user_key a id) _ s user h in
      let (found, e2, g2, h2) = continue-done (a.kv.get s users_collection key) _ s user h1 in
      let (value, e3, g3, h3) = continue-done (ok_or found Code.not_found) _ s user h2 in
      (
        key,
        (
          ok_or-some _ Code.invalid_argument key e1,
          (value, e2 ∙ ap done (ok_or-some found Code.not_found value e3), h3),
        ),
        ap (λ (x : Outcome Code (User DateTime) × S). x.1) (g1 ∙ g2 ∙ g3),
      )

  pub Finds-existing_user :
      (id : Bytes) (s : S) (key : Bytes) (user : User DateTime)
      → Finds s id key user
      → existing_user a id s ≡ (done user, s)
  unfolding existing_user user_key decrypt_user
  Finds-existing_user id s key user (e1, (value, e2, e3)) = rw (e1, e2, e3) refl

  abbrev Stored : S → Bytes → User DateTime → S → Type 0
  Stored s id user s' =
      HoldsUser a store pair s' id user
      × ((c k : Bytes)
          → (beq users_collection c && beq id k) ≡ false
          → a.kv.get s' c k ≡ a.kv.get s c k)

  store_user-done :
      (draws : Draws DateTime) (user : User DateTime) (s : S)
      → (store_user a draws user s).0 ≡ done tt
      → Stored s user.user_id user (store_user a draws user s).1
  unfolding store_user encrypt_user
  store_user-done draws user s h =
      let (value, e1, g1, h1) = continue-done (encrypt_user a draws.user_random user) _ s tt h in
      subst (Stored s user.user_id user) (sym (ap (λ (x : Outcome Code (Unit {0}) × S). x.1) g1)) (
        Holds-put a store pair a.platform.users draws.user_random user s users_collection
            user.user_id value e1 h1,
        get-put_other a.kv store s users_collection user.user_id value h1,
      )

  -- New credentials: the new hash with the MFA fields that were there.
  abbrev pub Rehashed : Draws DateTime → S → (username user_id password : Bytes) → S → Type 0
  Rehashed draws s username user_id password s' =
      (hash : Bytes) × (found : Option Bytes) × (mfa : Option Bytes × Option AuthMethod)
      × (a.platform.hash_password draws.salt password ≡ some hash)
      × (a.kv.get s auth_collection (auth_key username) ≡ done found)
      × (mfa_of a found ≡ done mfa)
      × HoldsAuth a store pair s' username (record {
        user_id = user_id;
        password_hash = hash;
        mfa_secret = mfa.0;
        mfa_method = mfa.1;
      })

  abbrev KeepsButAuth : S → Bytes → S → Type 0
  KeepsButAuth s username s' =
      (c k : Bytes)
      → (beq auth_collection c && beq (auth_key username) k) ≡ false
      → a.kv.get s' c k ≡ a.kv.get s c k

  update_password-done :
      (draws : Draws DateTime) (username user_id password : Bytes) (s : S)
      → (update_password a draws username user_id password s).0 ≡ done tt
      → let s' = (update_password a draws username user_id password s).1 in
        Rehashed draws s username user_id password s' × KeepsButAuth s username s'
  unfolding update_password
  update_password-done draws username user_id password s h =
      let (hash, e1, g1, h1) =
        continue-done (ok_or (a.platform.hash_password draws.salt password) Code.internal) _ s tt
          h in
      let (found, e2, g2, h2) =
        continue-done (a.kv.get s auth_collection (auth_key username)) _ s tt h1 in
      let (mfa, e3, g3, h3) = continue-done (mfa_of a found) _ s tt h2 in
      let auth : UserAuth = record {
        user_id = user_id;
        password_hash = hash;
        mfa_secret = mfa.0;
        mfa_method = mfa.1;
      } in
      let (value, e4, g4, h4) =
        continue-done (seal_record a.platform a.keys a.platform.auths draws.auth_random auth) _ s tt
          h3 in
      let last = ap (λ (x : Outcome Code (Unit {0}) × S). x.1) (g1 ∙ g2 ∙ g3 ∙ g4) in
      subst (λ s'. Rehashed draws s username user_id password s' × KeepsButAuth s username s')
        (sym last)
        (
          (
            hash,
            found,
            mfa,
            ok_or-some _ Code.internal hash e1,
            e2,
            e3,
            Holds-put a store pair a.platform.auths draws.auth_random auth s auth_collection
                (auth_key username) value e4 h4,
          ),
          get-put_other a.kv store s auth_collection (auth_key username) value h4,
        )

  -- What an update leaves of the credentials of the user: as they were, or rehashed.
  abbrev pub Changed : Draws DateTime → S → User DateTime → Option Bytes → S → Type 0
  Changed draws s user none s' =
      (key : Bytes) → a.kv.get s' auth_collection key ≡ a.kv.get s auth_collection key
  Changed draws s user (some password) s' = Rehashed draws s user.username user.user_id password s'

  change_password-done :
      (draws : Draws DateTime) (user : User DateTime) (password : Option Bytes) (s : S)
      → (change_password a draws user password s).0 ≡ done tt
      → let s' = (change_password a draws user password s).1 in
        Changed draws s user password s' × KeepsButAuth s user.username s'
  unfolding change_password
  change_password-done draws user none s h = ((λ key. refl), λ c k n. refl)
  change_password-done draws user (some password) s h =
      update_password-done draws user.username user.user_id password s h

  -- The credentials are read the same after the profile is stored.
  Changed-later :
      (draws : Draws DateTime) (s s1 s2 : S) (user : User DateTime) (password : Option Bytes)
      → ((key : Bytes) → a.kv.get s2 auth_collection key ≡ a.kv.get s1 auth_collection key)
      → Changed draws s user password s1
      → Changed draws s user password s2
  Changed-later draws s s1 s2 user none e h = λ key. e key ∙ h key
  Changed-later draws s s1 s2 user (some password) e (hash, found, mfa, e1, e2, e3, (value, r, o)) =
      (hash, found, mfa, e1, e2, e3, (value, e (auth_key user.username) ∙ r, o))

  abbrev pub UpdatedBy : Draws DateTime → UpdateUserRequest → S → ProtoUser → S → Type 0
  UpdatedBy draws req s r s' =
      (key : Bytes) × (old : User DateTime) × Finds s req.id key old
      × HoldsUser a store pair s' old.user_id (with_fields a draws req old)
      × Changed draws s old req.password s'
      × KeepsOthers a store pair s s' old.user_id old.username
      × (r ≡ user_to_proto a (with_fields a draws req old))

  pub update_user-with_fields :
      (draws : Draws DateTime) (req : UpdateUserRequest) (s : S) (r : ProtoUser)
      → (update_user a draws req s).0 ≡ done r
      → UpdatedBy draws req s r (update_user a draws req s).1
  unfolding update_user with_fields
  update_user-with_fields draws req s r h =
      let f0 = existing_user a req.id s in
      let (old, e1, g1, h1) = continue-done f0.0 _ f0.1 r h in
      let (key, found, same) = existing_user-done req.id s old e1 in
      let user = with_fields a draws req old in
      let f1 = change_password a draws user req.password f0.1 in
      let (u1, e2, g2, h2) = continue-done f1.0 _ f1.1 r h1 in
      let f2 = store_user a draws user f1.1 in
      let (u2, e3, g3, h3) = continue-done f2.0 _ f2.1 r h2 in
      let last : (update_user a draws req s).1 ≡ f2.1 =
        ap (λ (x : Outcome Code ProtoUser × S). x.1) (g1 ∙ g2 ∙ g3) in
      let (changed, kept) = change_password-done draws user req.password f0.1 e2 in
      let (holds, keeps) = store_user-done draws user f1.1 e3 in
      subst (UpdatedBy draws req s r) (sym last) (
        key,
        old,
        found,
        holds,
        Changed-later draws s f1.1 f2.1 old req.password
            (λ k. keeps auth_collection k (auth-users a store pair old.user_id k))
            (subst (λ x. Changed draws x old req.password f1.1) same changed),
        keeps_others a store pair s f2.1 old.user_id old.username
            (λ c k n m. keeps c k n ∙ kept c k m ∙ ap (λ x. a.kv.get x c k) same),
        ground (arith, h3),
      )

  abbrev pub Deleted : Draws DateTime → Bytes → S → S → Type 0
  Deleted draws id s s' =
      (key : Bytes) × (old : User DateTime) × Finds s id key old
      × HoldsUser a store pair s' old.user_id
          (record old { is_active = false; updated_at = draws.updated_at })
      × ((c k : Bytes)
          → (beq users_collection c && beq old.user_id k) ≡ false
          → a.kv.get s' c k ≡ a.kv.get s c k)

  -- On a store, with the keys of a pair, a deletion that succeeds found the profile, and only makes
  -- it inactive and dates the change; every other entry, the credentials included, is as it was.
  pub delete_user_lem :
      (draws : Draws DateTime) (id : Bytes) (s : S)
      → (delete_user a draws id s).0 ≡ done true
      → Deleted draws id s (delete_user a draws id s).1
  unfolding delete_user
  delete_user_lem draws id s h =
      let f0 = existing_user a id s in
      let (old, e1, g1, h1) = continue-done f0.0 _ f0.1 true h in
      let (key, found, same) = existing_user-done id s old e1 in
      let user : User DateTime = record old { is_active = false; updated_at = draws.updated_at } in
      let f1 = store_user a draws user f0.1 in
      let (u1, e2, g2, h2) = continue-done f1.0 _ f1.1 true h1 in
      let last : (delete_user a draws id s).1 ≡ f1.1 =
        ap (λ (x : Outcome Code Bool × S). x.1) (g1 ∙ g2) in
      let (holds, keeps) = store_user-done draws user f0.1 e2 in
      subst (Deleted draws id s) (sym last)
        (key, old, found, holds, λ c k n. keeps c k n ∙ ap (λ x. a.kv.get x c k) same)
