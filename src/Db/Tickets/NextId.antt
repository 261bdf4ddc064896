-- ===== src/Db/Tickets/NextId.antt =====
-- `next_id` of db/src/storage.rs: the counter of ticket ids.
use infovulcan.Common.{
  ◌+◌, ◌^◌, ◌<◌, ◌≡◌, refl, sym, ◌∙◌, subst, inl, inr, true, false, ◌&&◌, some, arith,
  if◌then◌else◌, Bool-cases, Bytes, beq, beq_refl, eq_of_beq, ok,
}
use mathlib.Core.Path.{fun_ext}
use mathlib.Core.Bool.{false≢true}
use infovulcan.Common.Word.{to_be_bytes, from-to_be_bytes}
use infovulcan.Db.Types.{Backend, tree_tickets, tree_seq, seq_ticket}
use infovulcan.Db.Tickets.{bump, next_id}
use infovulcan.Db.Tickets.Entries.{is_ticket_index}
use infovulcan.Db.Tickets.Invariant.{row, last_id, IsConsistent}

seq_ne_index : (t : Bytes) → is_ticket_index t ≡ true → beq tree_seq t ≡ false
unfolding beq
seq_ne_index t h = elim (Bool-cases (beq tree_seq t)) [
  | inl e ↦
      let p : is_ticket_index t ≡ false =
        subst (λ s. is_ticket_index s ≡ false) (eq_of_beq tree_seq t e) seq_no_index in
      absurd (false≢true (sym p ∙ h))
  | inr e ↦ e
]
  where
    seq_no_index : is_ticket_index tree_seq ≡ false
    seq_no_index = refl

seq_ne_tickets : beq tree_seq tree_tickets ≡ false
unfolding beq
seq_ne_tickets = refl

module _ (b : Backend) (d : b.sled.Db) where
  module _ (c : IsConsistent b d) (h : last_id b d + 1 < 2 ^ 64) where
    bump-last_id : bump (b.sled.get d tree_seq seq_ticket) ≡ some (to_be_bytes (last_id b d + 1))
    unfolding bump last_id
    bump-last_id = elim c.counter [
      | inl e ↦ rw (e, bump, last_id) refl
      | inr (n, hn, e) ↦ ground (arith, e, from-to_be_bytes n hn)
    ]

    pub next_id-last_id : (next_id b d seq_ticket).0 ≡ ok (last_id b d + 1)
    unfolding next_id
    next_id-last_id = ground (
      arith,
      b.sled.fetch-update_and_fetch d tree_seq seq_ticket bump,
      bump-last_id,
      from-to_be_bytes (last_id b d + 1) h,
    )

    pub get-next_id :
        (t k : Bytes)
        → b.sled.get (next_id b d seq_ticket).1 t k ≡ (
            if beq tree_seq t && beq seq_ticket k
            then some (to_be_bytes (last_id b d + 1))
            else b.sled.get d t k)
    unfolding next_id
    get-next_id t k =
        ground (arith, b.sled.get-update_and_fetch d tree_seq seq_ticket bump t k, bump-last_id)

    pub row-next_id : row b (next_id b d seq_ticket).1 ≡ row b d
    unfolding row
    row-next_id =
        fun_ext λ i. ground (arith, get-next_id tree_tickets (to_be_bytes i), seq_ne_tickets)

    pub last_id-next_id : last_id b (next_id b d seq_ticket).1 ≡ last_id b d + 1
    unfolding last_id
    last_id-next_id = ground (
      arith,
      get-next_id tree_seq seq_ticket,
      beq_refl tree_seq,
      beq_refl seq_ticket,
      from-to_be_bytes (last_id b d + 1) h,
    )

    pub next_id-IsConsistent : IsConsistent b (next_id b d seq_ticket).1
    next_id-IsConsistent = record {
      indexed = λ t k ti.
          rw row-next_id (ground (arith, get-next_id t k, seq_ne_index t ti, c.indexed t k ti));
      keyed = λ k v g. c.keyed k v (ground (arith, get-next_id tree_tickets k, seq_ne_tickets));
      counted = λ i s hi r.
          let q = c.counted i s hi (rw row-next_id at r) in rw last_id-next_id (omega arith);
      counter = inr (
        last_id b d + 1,
        h,
        ground (arith, get-next_id tree_seq seq_ticket, beq_refl tree_seq, beq_refl seq_ticket),
      );
    }
