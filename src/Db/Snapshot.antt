-- ===== src/Db/Snapshot.antt =====
-- Snapshots in db/src/raft.rs: `build_snapshot` and `install_snapshot`.
pub mod Rows
pub mod Transfer
mod Tests
use infovulcan.Common.{
  ℕ, zero, suc, ◌+◌, ◌-◌, ◌*◌, ◌/◌, ◌%◌, ◌^◌, ◌≤◌, ◌<◌, ◌≡◌, refl, sym, ap, ◌∙◌, subst, ◌≢◌, ◌↔◌,
  ◌⊎◌, inl, inr, Bool, true, false, not, ◌&&◌, ◌||◌, Option, none, some, List, [], ◌∷◌, ◌++◌, map,
  arith, ltb, leb, ◌==◌, if◌then◌else◌, ltb→lt, lt→ltb, leb→le, le→leb, ==_iff, tests, Bool-cases,
  Option-cases, length, length-append, take, drop, replicate, filter, In, In-filter, of_In-filter,
  All, All-In, Bytes, ascii, beq, beq_refl, eq_of_beq, starts_with, starts_with-append, blt, ble,
  blt_irrefl, blt_trans, blt_total, Error, not_found, corrupt, Result, ok, err, or_err,
  Result-cases,
}
use infovulcan.Openraft.{LogId}
use infovulcan.Serde.{Serde}
use infovulcan.Db.Types.{Backend}
use infovulcan.Db.Storage.{data_tree_names, list, put}
use infovulcan.Db.Machine.{StateMachine}

-- `(collection, key, value)`
abbrev pub SnapshotRow : Type 0
SnapshotRow = Bytes × Bytes × Bytes

-- The name of a snapshot, by what is formatted into it.
pub data SnapshotId : Type 0 where
  snapshot : (term index : ℕ) → SnapshotId
  snapshot_empty : SnapshotId

abbrev pub snapshot_id_of : Option LogId → SnapshotId
snapshot_id_of none = snapshot_empty
snapshot_id_of (some log_id) = snapshot log_id.leader_id.term log_id.index

abbrev pub with_collection : Bytes → List (Bytes × Bytes) → List SnapshotRow
with_collection collection [] = []
with_collection collection ((k, v) ∷ pairs) = (collection, k, v) ∷ with_collection collection pairs

module _ (b : Backend) (rows : Serde (List SnapshotRow)) {M Stored : Type 0}
    (stored : Option LogId → M → Stored) where
  pub record SnapshotMeta : Type 0 where
    pub snapshot_id : SnapshotId
    pub last_log_id : Option LogId
    pub last_membership : Stored

  -- The loops over the trees and their rows.
  unfoldable pub collect : b.sled.Db → List Bytes → List SnapshotRow
  collect d [] = []
  collect d (collection ∷ names) =
      with_collection collection (list b d collection [] none) ++ collect d names

  unfoldable pub build_snapshot : StateMachine b stored → SnapshotMeta × Bytes
  build_snapshot sm = (
    record {
      snapshot_id = snapshot_id_of sm.last_applied_log;
      last_log_id = sm.last_applied_log;
      last_membership = sm.last_membership;
    },
    rows.to_vec (collect sm.storage (data_tree_names b sm.storage)),
  )

  -- The loop over the rows of a snapshot.
  unfoldable pub restore : List SnapshotRow → b.sled.Db → b.sled.Db
  restore [] d = d
  restore ((collection, key, value) ∷ rs) d = restore rs (put b d collection key value)

  unfoldable pub install_snapshot :
      SnapshotMeta → Bytes → StateMachine b stored → Result (Unit {0}) × StateMachine b stored
  install_snapshot meta snapshot_data sm = elim (rows.from_slice snapshot_data) [
    | none ↦ (err corrupt, sm)
    | some rs ↦ (
      ok tt,
      record {
        last_applied_log = meta.last_log_id;
        last_membership = meta.last_membership;
        storage = restore rs sm.storage;
      },
    )
  ]
