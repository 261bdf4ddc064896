-- ===== src/Custodian/Snapshot.antt =====
-- Snapshots in custodian/src/raft.rs: `build_snapshot` and `install_snapshot`, without the metrics
-- that they count and push.
use infovulcan.Common.{
  ℕ, Option, none, some, List, [], ◌∷◌, ◌++◌, map, Bytes, corrupt, Result, ok, err,
}
use infovulcan.Openraft.{LogId}
use infovulcan.Serde.{Serde}
use infovulcan.Custodian.Types.{Backend}
use infovulcan.Custodian.Storage.{data_tree_names, list, put}
use infovulcan.Custodian.Machine.Log.{StateMachine}

-- `(collection, key, value)`
abbrev pub SnapshotRow : Type 0
SnapshotRow = Bytes × Bytes × Bytes

-- The name of a snapshot, by what is formatted into it.
pub data SnapshotId : Type 0 where
  snapshot : (term index : ℕ) → SnapshotId
  snapshot_empty : SnapshotId

unfoldable pub snapshot_id_of : Option LogId → SnapshotId
snapshot_id_of none = snapshot_empty
snapshot_id_of (some log_id) = snapshot log_id.leader_id.term log_id.index

module _ (b : Backend) (rows : Serde (List SnapshotRow)) {M Stored : Type 0}
    (stored : Option LogId → M → Stored) where
  pub record SnapshotMeta : Type 0 where
    pub snapshot_id : SnapshotId
    pub last_log_id : Option LogId
    pub last_membership : Stored

  -- The loops over the trees and their rows.
  unfoldable pub collect : b.sled.Db → List Bytes → List SnapshotRow
  collect d [] = []
  collect d (collection ∷ names) =
      map (λ (r : Bytes × Bytes). (collection, r.0, r.1)) (list b d collection [] none)
      ++ collect d names

  unfoldable pub build_snapshot : StateMachine b stored → SnapshotMeta × Bytes
  build_snapshot sm = (
    record {
      snapshot_id = snapshot_id_of sm.last_applied_log;
      last_log_id = sm.last_applied_log;
      last_membership = sm.last_membership;
    },
    rows.to_vec (collect sm.storage (data_tree_names b sm.storage)),
  )

  -- The loop over the rows of a snapshot.
  unfoldable pub restore : List SnapshotRow → b.sled.Db → b.sled.Db
  restore [] d = d
  restore ((collection, key, value) ∷ rs) d = restore rs (put b d collection key value)

  unfoldable pub install_snapshot :
      SnapshotMeta → Bytes → StateMachine b stored → Result (Unit {0}) × StateMachine b stored
  install_snapshot meta snapshot_data sm = elim (rows.from_slice snapshot_data) [
    | none ↦ (err corrupt, sm)
    | some rs ↦ (
      ok tt,
      record {
        last_applied_log = meta.last_log_id;
        last_membership = meta.last_membership;
        storage = restore rs sm.storage;
      },
    )
  ]
