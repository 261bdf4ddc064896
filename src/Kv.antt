-- ===== src/Kv.antt =====
-- The generic calls of the database that the auth and admin services use, as their client sees
-- them: `Get`, `Put` and `List` of a collection. The server of these calls is elsewhere.
pub mod Store
use infovulcan.Common.{◌≡◌, ◌&&◌, Option, some, List, if◌then◌else◌, Bytes, beq}
use infovulcan.Common.Outcome.{Outcome, done}
use infovulcan.Grpc.{Code}

pub record Kv (S : Type 0) : Type 0 where
  pub get : S → (collection key : Bytes) → Outcome Code (Option Bytes)
  pub put : S → (collection key value : Bytes) → Outcome Code (Unit {0}) × S
  pub list : S → (collection : Bytes) → Outcome Code (List (Bytes × Bytes))

module _ {S : Type 0} (kv : Kv S) where
  -- A put that is answered is seen by every later read, and changes no other entry.
  abbrev pub IsStore : Type 0
  IsStore =
      (s : S) (collection key value : Bytes)
      → (kv.put s collection key value).0 ≡ done tt
      → (c k : Bytes)
      → kv.get (kv.put s collection key value).1 c k
        ≡ (if beq collection c && beq key k then done (some value) else kv.get s c k)
