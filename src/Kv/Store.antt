-- ===== src/Kv/Store.antt =====
-- Reads after a put, and records that a collection holds sealed.
use infovulcan.Common.{◌≡◌, false, ◌&&◌, some, arith, Bytes, beq, beq_refl}
use infovulcan.Common.Outcome.{done}
use infovulcan.Kv.{Kv, IsStore}

module _ {S : Type 0} (kv : Kv S) (store : IsStore kv) (s : S) (collection key value : Bytes) where
  abbrev after : S
  after = (kv.put s collection key value).1

  pub get-put :
      (kv.put s collection key value).0 ≡ done tt → kv.get after collection key ≡ done (some value)
  get-put h =
      ground
        (arith, store s collection key value h collection key, beq_refl collection, beq_refl key)

  pub get-put_other :
      (kv.put s collection key value).0 ≡ done tt
      → (c k : Bytes) → (beq collection c && beq key k) ≡ false
      → kv.get after c k ≡ kv.get s c k
  get-put_other h c k e = ground (arith, store s collection key value h c k, e)
