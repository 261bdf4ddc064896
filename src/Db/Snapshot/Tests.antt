-- ===== src/Db/Snapshot/Tests.antt =====
-- A snapshot of one concrete database, installed in another.
use infovulcan.Common.{ℕ, ◌≡◌, refl, Option, none, some, List, [], ◌∷◌, Bytes, ascii, ok}
use infovulcan.Openraft.{LogId}
use infovulcan.Serde.{Serde}
use infovulcan.Serde.Codec.{bytes_codec, pair_codec, via_codec, list_codec, serde_of, Codec}
use infovulcan.Db.Sample.{backend, sample_index}
use infovulcan.Db.Tickets.{create_ticket}
use infovulcan.Db.Machine.{StateMachine}
use infovulcan.Db.Snapshot.{SnapshotRow, build_snapshot, install_snapshot}
use infovulcan.Db.Snapshot.Transfer.{merged, transfer}

abbrev row_codec : Codec SnapshotRow
row_codec =
    via_codec (pair_codec bytes_codec (pair_codec bytes_codec bytes_codec)) (λ r. (r.0, (r.1, r.2)))
      (λ p. some (p.0, p.1.0, p.1.1)) (λ r. refl)

abbrev rows : Serde (List SnapshotRow)
rows = serde_of (list_codec row_codec)

abbrev stored : Option LogId → ℕ → Option LogId × ℕ
stored l m = (l, m)

abbrev leader : StateMachine backend stored
leader = record {
  last_applied_log = some (record { leader_id = record { term = 1; node_id = 1 }; index = 4 });
  last_membership = (none, 3);
  storage = (create_ticket backend backend.sled.empty (7 ∷ []) sample_index).1;
}

abbrev follower : StateMachine backend stored
follower = record {
  last_applied_log = none;
  last_membership = (none, 0);
  storage = backend.sled.insert backend.sled.empty (ascii "audit") (1 ∷ []) (2 ∷ []);
}

transfer_example :
    let sent = build_snapshot backend rows stored leader in
    let r = install_snapshot backend rows stored sent.0 sent.1 follower in
    (r.0 ≡ ok tt)
    × (r.1.last_applied_log ≡ leader.last_applied_log)
    × (r.1.last_membership ≡ leader.last_membership)
    × ((t k : Bytes)
        → backend.sled.get r.1.storage t k
          ≡ merged backend rows stored leader.storage follower.storage t k)
transfer_example = transfer backend rows stored leader follower
