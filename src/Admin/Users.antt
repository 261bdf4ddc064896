-- ===== src/Admin/Users.antt =====
-- What the calls of admin/src/server.rs leave in the database, on success.
use infovulcan.Common.{
  ◌≡◌, refl, sym, ap, ◌∙◌, subst, ◌⊎◌, inl, inr, true, false, ◌&&◌, Option, none, some, arith,
  Bool-cases, Bytes, beq,
}
use infovulcan.Common.Outcome.{Outcome, done, ok_or}
use infovulcan.Common.Action.{continue-done}
use infovulcan.Grpc.{Code}
use infovulcan.Kv.{IsStore}
use infovulcan.Kv.Store.{get-put, get-put_other}
use infovulcan.Serde.{Serde}
use infovulcan.Shared.Encryption.{Random}
use infovulcan.Shared.User.{User, UserAuth}
use infovulcan.Accounts.{users_collection, auth_collection, auth_key, seal_record, Holds}
use infovulcan.Accounts.Sealed.{HasPair, open_record-seal_record}
use infovulcan.Admin.{
  ProtoUser, CreateUserRequest, Draws, Admin, user_to_proto, encrypt_user, created_user,
  created_auth, create_user,
}

pub ok_or-some : {E A : Type 0} (o : Option A) (e : E) (x : A) → ok_or o e ≡ done x → o ≡ some x
ok_or-some none e x h = absurd (ground (arith, h))
ok_or-some (some y) e x h = ground (arith, h)

module _ {DateTime S : Type 0} (a : Admin DateTime S) (store : IsStore a.kv)
    (pair : HasPair a.platform a.keys a.platform.users) where
  abbrev pub HoldsUser : S → Bytes → User DateTime → Type 0
  HoldsUser s id user = Holds a.platform a.keys a.platform.users a.kv s users_collection id user

  abbrev pub HoldsAuth : S → Bytes → UserAuth → Type 0
  HoldsAuth s username auth =
      Holds a.platform a.keys a.platform.auths a.kv s auth_collection (auth_key username) auth

  -- Nothing but the profile of one uuid and the credentials of one name may differ.
  abbrev pub KeepsOthers : S → S → (id username : Bytes) → Type 0
  KeepsOthers s s' id username =
      (c k : Bytes)
      → ((beq users_collection c && beq id k) ≡ true)
        ⊎ ((beq auth_collection c && beq (auth_key username) k) ≡ true)
        ⊎ (a.kv.get s' c k ≡ a.kv.get s c k)

  pub keeps_others :
      (s s' : S) (id username : Bytes)
      → ((c k : Bytes)
          → (beq users_collection c && beq id k) ≡ false
          → (beq auth_collection c && beq (auth_key username) k) ≡ false
          → a.kv.get s' c k ≡ a.kv.get s c k)
      → KeepsOthers s s' id username
  keeps_others s s' id username f c k = elim (Bool-cases (beq users_collection c && beq id k)) [
    | inl e ↦ inl e
    | inr e ↦ elim (Bool-cases (beq auth_collection c && beq (auth_key username) k)) [
      | inl m ↦ inr (inl m)
      | inr m ↦ inr (inr (f c k e m))
    ]
  ]

  pub Holds-put :
      {A : Type 0} (serde : Serde A) (random : Random) (x : A) (s : S)
      (collection key value : Bytes)
      → seal_record a.platform a.keys serde random x ≡ done value
      → (a.kv.put s collection key value).0 ≡ done tt
      → Holds a.platform a.keys serde a.kv (a.kv.put s collection key value).1 collection key x
  Holds-put serde random x s collection key value e h = (
    value,
    get-put a.kv store s collection key value h,
    open_record-seal_record a.platform a.keys serde random x value pair e,
  )

  -- A put in one of the two collections is not seen in the other.
  pub users-auth : (key k : Bytes) → (beq auth_collection users_collection && beq key k) ≡ false
  unfolding beq
  users-auth key k = refl

  pub auth-users : (key k : Bytes) → (beq users_collection auth_collection && beq key k) ≡ false
  unfolding beq
  auth-users key k = refl

  abbrev pub Created : Draws DateTime → CreateUserRequest → S → ProtoUser → Bytes → S → Type 0
  Created draws req s r hash s' =
      (a.platform.hash_password draws.salt req.password ≡ some hash)
      × HoldsUser s' draws.user_id (created_user a draws req)
      × HoldsAuth s' req.username (created_auth a draws hash)
      × KeepsOthers s s' draws.user_id req.username
      × (r ≡ record (user_to_proto a (created_user a draws req)) { role = req.role })

  pub create_user_lem :
      (draws : Draws DateTime) (req : CreateUserRequest) (s : S) (r : ProtoUser)
      → (create_user a draws req s).0 ≡ done r
      → (hash : Bytes) × Created draws req s r hash (create_user a draws req s).1
  unfolding create_user encrypt_user
  create_user_lem draws req s r h =
      let (hash, e1, g1, h1) =
        continue-done (ok_or (a.platform.hash_password draws.salt req.password) Code.internal) _ s r
          h in
      let auth = created_auth a draws hash in
      let user = created_user a draws req in
      let (sealed_auth, e2, g2, h2) =
        continue-done (seal_record a.platform a.keys a.platform.auths draws.auth_random auth) _ s r
          h1 in
      let (sealed_user, e3, g3, h3) =
        continue-done (encrypt_user a draws.user_random user) _ s r h2 in
      let p1 = a.kv.put s users_collection draws.user_id sealed_user in
      let (u1, e4, g4, h4) = continue-done p1.0 _ p1.1 r h3 in
      let p2 = a.kv.put p1.1 auth_collection (auth_key req.username) sealed_auth in
      let (u2, e5, g5, h5) = continue-done p2.0 _ p2.1 r h4 in
      let last : (create_user a draws req s).1 ≡ p2.1 =
        ap (λ (x : Outcome Code ProtoUser × S). x.1) (g1 ∙ g2 ∙ g3 ∙ g4 ∙ g5) in
      let (value, read, opened) =
        Holds-put a.platform.users draws.user_random user s users_collection draws.user_id
          sealed_user e3 e4 in
      let other =
        get-put_other a.kv store p1.1 auth_collection (auth_key req.username) sealed_auth e5 in
      (
        hash,
        subst (λ s'. Created draws req s r hash s') (sym last)
            (
              ok_or-some _ Code.internal hash e1,
              (
                value,
                other users_collection draws.user_id
                      (users-auth (auth_key req.username) draws.user_id)
                    ∙ read,
                opened,
              ),
              Holds-put a.platform.auths draws.auth_random auth p1.1 auth_collection
                  (auth_key req.username) sealed_auth e2 e5,
              keeps_others s p2.1 draws.user_id req.username (λ c k n m.
                  other c k m
                  ∙ get-put_other a.kv store s users_collection draws.user_id sealed_user e4 c k n),
              ground (arith, h5),
            ),
      )
