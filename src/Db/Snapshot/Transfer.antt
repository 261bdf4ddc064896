-- ===== src/Db/Snapshot/Transfer.antt =====
-- A snapshot of db/src/raft.rs, built on one node and installed on another.
use infovulcan.Common.{
  ◌≡◌, refl, sym, ap, ◌∙◌, subst, ◌⊎◌, inl, inr, Bool, true, false, not, ◌&&◌, ◌||◌, Option, none,
  some, List, [], ◌∷◌, arith, if◌then◌else◌, Bool-cases, Option-cases, filter, In, In-filter,
  of_In-filter, Bytes, ascii, beq, beq_refl, eq_of_beq, ok,
}
use mathlib.Core.Bool.{false≢true}
use infovulcan.Openraft.{LogId}
use infovulcan.Serde.{Serde}
use infovulcan.Db.Types.{Backend}
use infovulcan.Db.Storage.{data_tree_names, list, is_skipped}
use infovulcan.Db.Machine.{StateMachine}
use infovulcan.Db.Snapshot.Rows.{
  In-append, In-append_left, In-append_right, In-with_collection_of, In-with_collection,
}
use infovulcan.Db.Snapshot.{
  SnapshotRow, with_collection, collect, build_snapshot, restore, install_snapshot,
}

module _ (b : Backend) (rows : Serde (List SnapshotRow)) {M Stored : Type 0}
    (stored : Option LogId → M → Stored) where
  -- The value that a list of rows has for a key, the last one.
  abbrev pub value_of : List SnapshotRow → Bytes → Bytes → Option Bytes → Option Bytes
  value_of [] t k old = old
  value_of ((collection, key, value) ∷ rs) t k old =
      value_of rs t k (if beq collection t && beq key k then some value else old)

  get-restore :
      (rs : List SnapshotRow) (d : b.sled.Db) (t k : Bytes)
      → b.sled.get (restore b rows stored rs d) t k ≡ value_of rs t k (b.sled.get d t k)
  unfolding restore
  get-restore [] d t k = refl
  get-restore ((collection, key, value) ∷ rs) d t k =
      get-restore rs (b.sled.insert d collection key value) t k
      ∙ ap (value_of rs t k) (b.sled.get-insert d collection key value t k)

  head_row :
      (c j w t k : Bytes) (rs : List SnapshotRow)
      → (beq c t && beq j k) ≡ true
      → In (t, k, w) ((c, j, w) ∷ rs)
  head_row c j w t k rs e =
      let p : c ≡ t = eq_of_beq c t (ground (arith, e)) in
      let q : j ≡ k = eq_of_beq j k (ground (arith, e)) in
      inl (ap (λ x. (x, j, w)) p ∙ ap (λ x. (t, x, w)) q)

  -- Rows that agree with a table: where it has nothing, they keep what was there.
  value_of-none :
      (rs : List SnapshotRow) (t k : Bytes) (src old : Option Bytes)
      → ((w : Bytes) → In (t, k, w) rs → src ≡ some w)
      → src ≡ none
      → value_of rs t k old ≡ old
  value_of-none [] t k src old h n = refl
  value_of-none ((c, j, w) ∷ rs) t k src old h n = elim (Bool-cases (beq c t && beq j k)) [
    | inl e ↦ absurd (ground (arith, n, h w (head_row c j w t k rs e)))
    | inr e ↦ rw e (value_of-none rs t k src old (λ v m. h v (inr m)) n)
  ]

  -- And where it has a value that is among the rows, they set it.
  value_of-some :
      (rs : List SnapshotRow) (t k v : Bytes) (src old : Option Bytes)
      → ((w : Bytes) → In (t, k, w) rs → src ≡ some w)
      → src ≡ some v
      → In (t, k, v) rs ⊎ (old ≡ some v)
      → value_of rs t k old ≡ some v
  value_of-some [] t k v src old h n (inl m) = absurd m
  value_of-some [] t k v src old h n (inr e) = e
  value_of-some ((c, j, w) ∷ rs) t k v src old h n m = elim (Bool-cases (beq c t && beq j k)) [
    | inl e ↦ rw e (
        value_of-some rs t k v src (some w) (λ u x. h u (inr x)) n
          (inr (sym (h w (head_row c j w t k rs e)) ∙ n)))
    | inr e ↦ rw e (value_of-some rs t k v src old (λ u x. h u (inr x)) n (later e m))
  ]
    where
      later :
          (beq c t && beq j k) ≡ false
          → In (t, k, v) ((c, j, w) ∷ rs) ⊎ (old ≡ some v)
          → In (t, k, v) rs ⊎ (old ≡ some v)
      later e (inr p) = inr p
      later e (inl (inr x)) = inl x
      later e (inl (inl p)) =
          let same : (beq c t && beq j k) ≡ true =
            ground (arith, ap (λ r. r.0) p, ap (λ r. r.1) p, beq_refl t, beq_refl k) in
          absurd (false≢true (sym e ∙ same))

  collect_sound :
      (d : b.sled.Db) (t k v : Bytes) (names : List Bytes)
      → In (t, k, v) (collect b rows stored d names)
      → In t names × (b.sled.get d t k ≡ some v)
  unfolding collect list
  collect_sound d t k v [] m = absurd m
  collect_sound d t k v (c ∷ names) m =
      elim (In-append (t, k, v) (with_collection c (b.sled.iter d c)) _ m) [
        | inl l ↦
            let r = In-with_collection c t k v (b.sled.iter d c) l in
            (inl r.0, b.sled.iter_sound d t k v (subst (λ x. In (k, v) (b.sled.iter d x)) r.0 r.1))
        | inr l ↦ let r = collect_sound d t k v names l in (inr r.0, r.1)
      ]

  collect_complete :
      (d : b.sled.Db) (t k v : Bytes) (names : List Bytes)
      → In t names
      → b.sled.get d t k ≡ some v
      → In (t, k, v) (collect b rows stored d names)
  unfolding collect list
  collect_complete d t k v [] m g = absurd m
  collect_complete d t k v (c ∷ names) (inl e) g =
      In-append_left (t, k, v) (with_collection c (b.sled.iter d c)) _
        (subst (λ x. In (t, k, v) (with_collection x (b.sled.iter d x))) (sym e)
          (In-with_collection_of t k v (b.sled.iter d t) (b.sled.iter_complete d t k v g)))
  collect_complete d t k v (c ∷ names) (inr m) g =
      In-append_right (t, k, v) (with_collection c (b.sled.iter d c)) _
        (collect_complete d t k v names m g)

  abbrev pub or_else : Option Bytes → Option Bytes → Option Bytes
  or_else none old = old
  or_else (some v) old = some v

  -- What a snapshot of one database leaves in another: nothing in the trees of Raft and in sled's
  -- default tree; in every other tree the rows of the source, over those of the target.
  abbrev pub is_own : Bytes → Bool
  is_own t =
      beq (ascii "raft_metadata") t
      || beq (ascii "raft_state") t
      || beq (ascii "raft_log") t
      || beq (ascii "__sled__default") t

  unfoldable pub merged : b.sled.Db → b.sled.Db → Bytes → Bytes → Option Bytes
  merged source target t k =
      if is_own t
      then b.sled.get target t k
      else or_else (b.sled.get source t k) (b.sled.get target t k)

  merged_skipped :
      (source target : b.sled.Db) (t k : Bytes)
      → is_skipped t ≡ true
      → merged source target t k ≡ b.sled.get target t k
  unfolding merged
  merged_skipped source target t k e = rw (merged, e) refl

  merged_kept :
      (source target : b.sled.Db) (t k : Bytes)
      → is_skipped t ≡ false
      → merged source target t k ≡ or_else (b.sled.get source t k) (b.sled.get target t k)
  unfolding merged
  merged_kept source target t k e = rw (merged, e) refl

  kept_ne : (t : Bytes) → is_skipped t ≡ true → (not (is_skipped t) ≡ true) → ⊥
  kept_ne t e n = false≢true (sym (ap not e) ∙ n)

  get-collected :
      (source target : b.sled.Db) (t k : Bytes)
      → value_of
          (collect b rows stored source (data_tree_names b source))
          t
          k
          (b.sled.get target t k)
        ≡ merged source target t k
  unfolding merged data_tree_names
  get-collected source target t k =
      let keep : Bytes → Bool = λ name. not (is_skipped name) in
      let names = filter keep (b.sled.tree_names source) in
      let rs = collect b rows stored source names in
      let old = b.sled.get target t k in
      let sound : (w : Bytes) → In (t, k, w) rs → In t names × (b.sled.get source t k ≡ some w) =
        λ w m. collect_sound source t k w names m in
      elim (Bool-cases (is_skipped t)) [
        | inl e ↦
            value_of-none rs t k none old
              (λ w m. absurd (kept_ne t e (of_In-filter keep t _ (sound w m).0).1)) refl
            ∙ sym (merged_skipped source target t k e)
        | inr e ↦ elim (Option-cases (b.sled.get source t k)) [
          | inl g ↦
              value_of-none rs t k (b.sled.get source t k) old (λ w m. (sound w m).1) g
              ∙ sym (merged_kept source target t k e ∙ ap (λ o. or_else o old) g)
          | inr (v, g) ↦
              let there : In t names =
                In-filter keep t (b.sled.tree_names source)
                  (b.sled.tree_names_complete source t k v g) (ap not e) in
              value_of-some rs t k v (b.sled.get source t k) old (λ w m. (sound w m).1) g
                (inl (collect_complete source t k v names there g))
              ∙ sym (merged_kept source target t k e ∙ ap (λ o. or_else o old) g)
        ]
      ]

  -- A snapshot that one node builds and another installs arrives: the call succeeds, the last
  -- applied log id and the membership are those of the node that built it, every row of another
  -- tree than those of Raft and sled's default tree has its value there, and every row that only
  -- the other node had is as it was; in those trees nothing changes.
  pub transfer :
      (source target : StateMachine b stored)
      → let sent = build_snapshot b rows stored source in
        let r = install_snapshot b rows stored sent.0 sent.1 target in
        (r.0 ≡ ok tt)
        × (r.1.last_applied_log ≡ source.last_applied_log)
        × (r.1.last_membership ≡ source.last_membership)
        × ((t k : Bytes) → b.sled.get r.1.storage t k ≡ merged source.storage target.storage t k)
  unfolding build_snapshot install_snapshot
  transfer source target =
      let rs = collect b rows stored source.storage (data_tree_names b source.storage) in
      rw (install_snapshot, rows.from_slice-to_vec rs)
        (
          refl,
          refl,
          refl,
          λ t k.
              get-restore rs target.storage t k ∙ get-collected source.storage target.storage t k,
        )
