-- ===== src/Db/Server/KeyValues/Store.antt =====
-- The calls of db/src/server.rs on keys and values, as the clients of auth/src/server.rs and
-- admin/src/server.rs see them.
use infovulcan.Common.{
  ◌≡◌, refl, sym, ap, ◌∙◌, subst, inl, inr, Bool, true, false, ◌&&◌, Option, none, some, [],
  if◌then◌else◌, Option-cases, Bytes, beq, not_found, Result,
}
use infovulcan.Common.Outcome.{Outcome, done, failed, map_err, failed_ne}
use infovulcan.Grpc.{Code}
use infovulcan.Kv.{Kv, IsStore}
use infovulcan.Db.Types.{Backend, LogEntry}
use infovulcan.Db.Storage.{put, get}
use infovulcan.Db.Machine.{DbResponse, apply, apply_entry}
use infovulcan.Db.Server.{ClientWrite, Status, invalid_argument, not_found, internal}
use infovulcan.Db.Server.Calls.{Commits}
use infovulcan.Db.Server.KeyValues.{GetResponse, written, put_call, get_call, list_call}

abbrev code_of : Status → Code
code_of invalid_argument = Code.invalid_argument
code_of not_found = Code.not_found
code_of internal = Code.internal

-- The client tests `found` before it takes the value.
abbrev value_of : Outcome Status GetResponse → Outcome Code (Option Bytes)
value_of (failed e) = failed (code_of e)
value_of (done r) = done (if r.found then some r.value else none)

abbrev stored_of : Outcome Status Bool → Outcome Code (Unit {0})
stored_of (failed e) = failed (code_of e)
stored_of (done r) = done tt

module _ (b : Backend) (client_write : ClientWrite b) where
  unfoldable pub kv : Kv b.sled.Db
  kv = record {
    get =
        λ d collection key. value_of (get_call b (record { collection = collection; key = key }) d);
    put = λ d collection key value.
        let r =
          put_call b client_write (record { collection = collection; key = key; value = value })
            d in
        (stored_of r.0, r.1);
    list = λ d collection.
        map_err code_of
          (list_call b (record { collection = collection; prefix = []; limit = 0 }) d);
  }

  abbrev pub held : Option Bytes → Outcome Code (Option Bytes)
  held v = done v

  kv-get :
      (d : b.sled.Db) (collection key : Bytes)
      → kv.get d collection key ≡ done (get b d collection key)
  unfolding kv get_call
  kv-get d collection key = elim (Option-cases (get b d collection key)) [
    | inl e ↦ rw e refl
    | inr (v, e) ↦ rw e refl
  ]

  kv-put :
      (d : b.sled.Db) (collection key value : Bytes)
      → Commits b client_write
      → (kv.put d collection key value).0 ≡ done tt
      → (kv.put d collection key value).1 ≡ put b d collection key value
  unfolding kv put_call Commits apply apply_entry
  kv-put d collection key value commits h = elim (commits (LogEntry.put collection key value) d) [
    | inl e ↦ absurd (failed_ne (subst (λ o. stored_of (written true o) ≡ done tt) e h))
    | inr (r, d', a, e) ↦
        ap (λ (x : Option DbResponse × b.sled.Db). x.1) e
        ∙ sym (ap (λ (x : Result DbResponse × b.sled.Db). x.1) a)
  ]

  held-if :
      (t : Bool) (x y : Option Bytes) → held (if t then x else y) ≡ (if t then held x else held y)
  held-if true x y = refl
  held-if false x y = refl

  -- What the services auth and admin rely on. Where a write fails or is committed: after a put that
  -- is answered, every read of its collection and key gives the value, and every other read gives
  -- what it gave before.
  pub get_call-put_call :
      (d : b.sled.Db) (collection key value c k : Bytes)
      → Commits b client_write
      → (kv.put d collection key value).0 ≡ done tt
      → kv.get (kv.put d collection key value).1 c k
        ≡ (if beq collection c && beq key k then done (some value) else kv.get d c k)
  get_call-put_call d collection key value c k commits h =
      kv-get (kv.put d collection key value).1 c k
      ∙ ap (λ x. held (get b x c k)) (kv-put d collection key value commits h)
      ∙ ap held (b.sled.get-insert d collection key value c k)
      ∙ held-if (beq collection c && beq key k) (some value) (get b d c k)
      ∙ ap (λ x. if beq collection c && beq key k then done (some value) else x)
          (sym (kv-get d c k))

  pub kv-IsStore : Commits b client_write → IsStore kv
  kv-IsStore commits d collection key value h c k =
      get_call-put_call d collection key value c k commits h
