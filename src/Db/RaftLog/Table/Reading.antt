-- ===== src/Db/RaftLog/Table/Reading.antt =====
-- Reading a range of the log in db/src/raft.rs.
use infovulcan.Common.{
  ℕ, zero, suc, ◌+◌, ◌-◌, ◌%◌, ◌^◌, ◌≤◌, ◌<◌, ◌≡◌, refl, sym, ap, ◌∙◌, subst, ◌↔◌, inl, inr, Bool,
  true, false, Option, none, some, List, [], ◌∷◌, arith, ltb→lt, Bool-cases, Option-cases, filter,
  In, In-filter, of_In-filter, All, All-In, Bytes, blt, ble, ok,
}
use mathlib.Core.Bool.{false≢true}
use infovulcan.Common.Word.{to_be_bytes, from_be_bytes, from-to_be_bytes, blt-to_be_bytes}
use infovulcan.Openraft.{Entry}
use infovulcan.Sled.{IsSorted}
use infovulcan.Db.Types.{tree_raft_log}
use infovulcan.Db.RaftLog.{
  LogBackend, Store, Bound, included, excluded, unbounded, start_index, end_index, past, read_rows,
  try_get_log_entries,
}
use infovulcan.Db.RaftLog.Table.{log_row}

All-filter :
    (P : Bytes × Bytes → Type 0) (p : Bytes × Bytes → Bool) (rows : List (Bytes × Bytes))
    → All P rows
    → All P (filter p rows)
All-filter P p [] h = tt
All-filter P p (r ∷ rows) h = elim (Bool-cases (p r)) [
  | inl e ↦ rw e (h.0, All-filter P p rows h.1)
  | inr e ↦ rw e (All-filter P p rows h.1)
]

IsSorted-filter :
    (p : Bytes × Bytes → Bool) (rows : List (Bytes × Bytes))
    → IsSorted rows
    → IsSorted (filter p rows)
IsSorted-filter p [] h = tt
IsSorted-filter p ((k, v) ∷ rows) h = elim (Bool-cases (p (k, v))) [
  | inl e ↦ rw e (All-filter (λ r. blt k r.0 ≡ true) p rows h.0, IsSorted-filter p rows h.1)
  | inr e ↦ rw e (IsSorted-filter p rows h.1)
]

-- The index of a bound is a `u64`, and an excluded start has a next one.
abbrev pub IsStart : Bound → Type 0
IsStart (included i) = i < 2 ^ 64
IsStart (excluded i) = i + 1 < 2 ^ 64
IsStart unbounded = Unit {0}

abbrev pub IsEnd : Bound → Type 0
IsEnd (included i) = i < 2 ^ 64
IsEnd (excluded i) = i < 2 ^ 64
IsEnd unbounded = Unit {0}

-- An index at or after a start.
abbrev pub Begun : Bound → ℕ → Type 0
Begun (included i) n = i ≤ n
Begun (excluded i) n = i < n
Begun unbounded n = Unit {0}

-- An index before an end. An excluded end of 0, before which there is no index, holds back nothing:
-- the index of the last entry is computed as 0 - 1, which wraps around.
abbrev pub NotPassed : Bound → ℕ → Type 0
NotPassed (included i) n = n ≤ i
NotPassed (excluded zero) n = Unit {0}
NotPassed (excluded (suc i)) n = n < suc i
NotPassed unbounded n = Unit {0}

start_index-lt : (start : Bound) → IsStart start → start_index start < 2 ^ 64
unfolding start_index
start_index-lt (included i) h = h
start_index-lt (excluded i) h = omega arith
start_index-lt unbounded h = omega arith

start_index-Begun :
    (start : Bound) (n : ℕ) → IsStart start → (start_index start ≤ n) ↔ Begun start n
unfolding start_index
start_index-Begun (included i) n h = (λ p. p, λ p. p)
start_index-Begun (excluded i) n h = (λ p. omega arith, λ p. omega arith)
start_index-Begun unbounded n h = (λ p. tt, λ p. omega arith)

end_index-NotPassed :
    (end_ : Bound) (n : ℕ)
    → IsEnd end_
    → n < 2 ^ 64
    → (past (end_index end_) n ≡ false) ↔ NotPassed end_ n
unfolding end_index
end_index-NotPassed (included i) n h k = (λ p. ground (arith, p), λ p. ground (arith, p))
end_index-NotPassed (excluded zero) n h k = (λ p. tt, λ p. ground (arith, k))
end_index-NotPassed (excluded (suc i)) n h k =
    let same : (suc i + (2 ^ 64 - 1)) % 2 ^ 64 ≡ i = omega arith in
    rw same (λ p. ground (arith, p), λ p. ground (arith, p))
end_index-NotPassed unbounded n h k = (λ p. tt, λ p. refl)

module _ {D M : Type 0} (b : LogBackend D M) where
  abbrev pub IsRow : Bytes → Bytes → Type 0
  IsRow k v =
      (e : Entry D M) × (e.log_id.index < 2 ^ 64)
      × (k ≡ to_be_bytes e.log_id.index)
      × (v ≡ b.entries.to_vec e)

  -- Every row of the log tree is an entry under its index.
  unfoldable pub IsLog : Store b → Type 0
  IsLog s = (k v : Bytes) → b.sled.get s.storage tree_raft_log k ≡ some v → IsRow k v

  abbrev pub row_of : Entry D M → Bytes × Bytes
  row_of e = (to_be_bytes e.log_id.index, b.entries.to_vec e)

  -- What the loop returns.
  abbrev pub Reads : Option ℕ → List (Bytes × Bytes) → List (Entry D M) → Type 0
  Reads end_ rows es =
      (read_rows b end_ rows ≡ ok es)
      × ((e : Entry D M)
          → In e es
          → In (row_of e) rows × (e.log_id.index < 2 ^ 64) × (past end_ e.log_id.index ≡ false))
      × ((e : Entry D M)
          → e.log_id.index < 2 ^ 64
          → In (row_of e) rows
          → past end_ e.log_id.index ≡ false
          → In e es)

  past_mono : (end_ : Option ℕ) (i j : ℕ) → i < j → past end_ i ≡ true → past end_ j ≡ true
  past_mono none i j h p = cc
  past_mono (some n) i j h p = ground (arith, h, p)

  row_of-injective : (e f : Entry D M) → b.entries.to_vec e ≡ b.entries.to_vec f → e ≡ f
  row_of-injective e f h = some_inj (
      sym (b.entries.from_slice-to_vec e)
      ∙ ap b.entries.from_slice h
      ∙ b.entries.from_slice-to_vec f)
    where
      some_inj : some e ≡ some f → e ≡ f
      some_inj p = cc

  past_later :
      (end_ : Option ℕ) (i j : ℕ)
      → i < 2 ^ 64
      → j < 2 ^ 64
      → blt (to_be_bytes i) (to_be_bytes j) ≡ true
      → past end_ i ≡ true
      → past end_ j ≡ true
  past_later end_ i j h k l p =
      past_mono end_ i j (ltb→lt i j (sym (blt-to_be_bytes i j h k) ∙ l)) p

  read_rows-Reads :
      (end_ : Option ℕ) (rows : List (Bytes × Bytes))
      → IsSorted rows
      → ((k v : Bytes) → In (k, v) rows → IsRow k v)
      → (es : List (Entry D M)) × Reads end_ rows es
  unfolding read_rows
  read_rows-Reads end_ [] sorted wf = ([], (refl, λ e m. absurd m, λ e h m p. m))
  read_rows-Reads end_ ((k, v) ∷ rows) sorted wf =
      let (f, hf, ek, ev) = wf k v (inl refl) in
      let index = f.log_id.index in
      let parsed_key : from_be_bytes k ≡ some index =
        ap from_be_bytes ek ∙ from-to_be_bytes index hf in
      let parsed_row : b.entries.from_slice v ≡ some f =
        ap b.entries.from_slice ev ∙ b.entries.from_slice-to_vec f in
      let same : (e : Entry D M) → (k, v) ≡ row_of e → f ≡ e =
        λ e q. row_of-injective f e (sym ev ∙ ap (λ r. r.1) q) in
      elim (Bool-cases (past end_ index)) [
        | inl stop ↦ (
          [],
          (
            ground (arith, parsed_key, stop),
            λ e m. absurd m,
            λ e h m p. absurd (
                false≢true (
                  sym p ∙ elim m [
                    | inl q ↦ subst (λ x. past end_ x.log_id.index ≡ true) (same e q) stop
                    | inr m' ↦
                        past_later end_ index e.log_id.index hf h
                          (subst (λ x. blt x (to_be_bytes e.log_id.index) ≡ true) ek
                            (All-In (λ r. blt k r.0 ≡ true) (row_of e) rows sorted.0 m'))
                          stop
                  ])),
          ),
        )
        | inr go ↦
            let (es, (r, sound, complete)) =
              read_rows-Reads end_ rows sorted.1 (λ k v m. wf k v (inr m)) in
            (
              f ∷ es,
              (
                ground (arith, parsed_key, parsed_row, go, r),
                λ e m. elim m [
                  | inl q ↦
                      subst
                        (λ x.
                          In (row_of x) ((k, v) ∷ rows)
                          × (x.log_id.index < 2 ^ 64)
                          × (past end_ x.log_id.index ≡ false))
                        q (inl (ap (λ x. (x, v)) ek ∙ ap (λ x. (to_be_bytes index, x)) ev), hf, go)
                  | inr m' ↦ let s = sound e m' in (inr s.0, s.1, s.2)
                ],
                λ e h m p. elim m [ inl q ↦ inl (same e q) | inr m' ↦ inr (complete e h m' p) ],
              ),
            )
      ]

  -- The rows from a start on are those of the entries at indexes from it on.
  In-range_from :
      (s : Store b) (start : ℕ) (e : Entry D M)
      → IsLog s
      → start < 2 ^ 64
      → e.log_id.index < 2 ^ 64
      → In (row_of e) (b.sled.range_from s.storage tree_raft_log (to_be_bytes start))
        ↔ ((log_row b s e.log_id.index ≡ some e) × (start ≤ e.log_id.index))
  unfolding IsLog log_row
  In-range_from s start e wf h k =
      let rows = b.sled.iter s.storage tree_raft_log in
      let from_start : Bytes × Bytes → Bool = λ r. ble (to_be_bytes start) r.0 in
      let order = blt-to_be_bytes e.log_id.index start k h in
      rw (b.sled.range_from_lem s.storage tree_raft_log (to_be_bytes start)) (
        λ m.
            let (m', q) = of_In-filter from_start (row_of e) rows m in
            let g = b.sled.iter_sound s.storage tree_raft_log _ _ m' in
            (ground (arith, g, b.entries.from_slice-to_vec e), ground (arith, q, order)),
        λ c. elim (Option-cases (b.sled.get s.storage tree_raft_log (to_be_bytes e.log_id.index))) [
          | inl g ↦ absurd (ground (arith, g, c.0))
          | inr (v, g) ↦
              let (f, hf, ek, ev) = wf (to_be_bytes e.log_id.index) v g in
              let same : some f ≡ some e =
                sym (ap b.entries.from_slice ev ∙ b.entries.from_slice-to_vec f)
                ∙ ground (arith, g, c.0) in
              let g' : b.sled.get s.storage tree_raft_log (to_be_bytes e.log_id.index)
                  ≡ some (b.entries.to_vec e) =
                ground (arith, g, ev, same) in
              In-filter from_start (row_of e) rows
                (b.sled.iter_complete s.storage tree_raft_log _ _ g') (ground (arith, c.1, order))
        ],
      )

  rows_wf :
      (s : Store b) (start : Bytes)
      → IsLog s
      → (k v : Bytes) → In (k, v) (b.sled.range_from s.storage tree_raft_log start)
      → IsRow k v
  unfolding IsLog
  rows_wf s start wf k v m = wf k v (
      b.sled.iter_sound s.storage tree_raft_log k v
        (of_In-filter (λ r. ble start r.0) (k, v) (b.sled.iter s.storage tree_raft_log)
          (subst (In (k, v)) (b.sled.range_from_lem s.storage tree_raft_log start) m)).0)

  rows-IsSorted :
      (s : Store b) (start : Bytes) → IsSorted (b.sled.range_from s.storage tree_raft_log start)
  rows-IsSorted s start =
      subst IsSorted (sym (b.sled.range_from_lem s.storage tree_raft_log start))
        (IsSorted-filter _ _ (b.sled.iter-IsSorted s.storage tree_raft_log))

  -- Where every row of the log tree is an entry under its index, and the bounds are `u64`s and an
  -- excluded start is not the last one, reading a range of the log succeeds and returns exactly the
  -- entries whose index is at or after an included start, after an excluded one, at or before an
  -- included end and before an excluded one, but for one case: an excluded end of 0, which allows no
  -- entry, gives every entry from the start on, in a build whose arithmetic wraps around.
  pub try_get_log_entries_lem :
      (start_bound end_bound : Bound) (s : Store b)
      → IsLog s
      → IsStart start_bound
      → IsEnd end_bound
      → (es : List (Entry D M)) × (try_get_log_entries b start_bound end_bound s ≡ ok es)
        × ((e : Entry D M)
            → e.log_id.index < 2 ^ 64
            → In e es ↔ (
                (log_row b s e.log_id.index ≡ some e)
                × Begun start_bound e.log_id.index
                × NotPassed end_bound e.log_id.index))
  unfolding try_get_log_entries
  try_get_log_entries_lem start_bound end_bound s wf hs he =
      let h = start_index-lt start_bound hs in
      let start = to_be_bytes (start_index start_bound) in
      let (es, (r, sound, complete)) =
        read_rows-Reads (end_index end_bound) (b.sled.range_from s.storage tree_raft_log start)
          (rows-IsSorted s start) (rows_wf s start wf) in
      (
        es,
        r,
        λ e k.
            let range = In-range_from s (start_index start_bound) e wf h k in
            let begun = start_index-Begun start_bound e.log_id.index hs in
            let kept = end_index-NotPassed end_bound e.log_id.index he k in
            (
              λ m. let t = sound e m in let u = range.0 t.0 in (u.0, begun.0 u.1, kept.0 t.2),
              λ c. complete e k (range.1 (c.0, begun.1 c.1)) (kept.1 c.2),
            ),
      )
