-- ===== src/Db/Tickets/Start.antt =====
-- The empty database is consistent.
use infovulcan.Common.{ℕ, ◌≡◌, refl, sym, ◌∙◌, inl, inr, none, some, Option-cases, Bytes}
use mathlib.Core.Path.{fun_ext}
use infovulcan.Common.Word.{to_be_bytes}
use infovulcan.Db.Types.{Backend, tree_tickets, tree_seq, seq_ticket}
use infovulcan.Db.Tickets.Entries.{owner}
use infovulcan.Db.Tickets.Invariant.{active, has_index, index_row, row, last_id, IsConsistent}

nothing {ℓ} : {A : Type ℓ} (a : A) → none ≡ some a → ⊥
nothing a e = cc

module _ (b : Backend) where
  pub row-empty : (i : ℕ) → row b b.sled.empty i ≡ none
  unfolding row
  row-empty i = rw (b.sled.get-empty tree_tickets (to_be_bytes i), row) refl

  pub last_id-empty : last_id b b.sled.empty ≡ 0
  unfolding last_id
  last_id-empty = rw (b.sled.get-empty tree_seq seq_ticket, last_id) refl

  index_row-empty : (t k : Bytes) → index_row (row b b.sled.empty) t k ≡ none
  unfolding index_row active has_index
  index_row-empty t k = rw (fun_ext row-empty) (elim (Option-cases (owner k)) [
    | inl e ↦ rw (e, index_row) refl
    | inr (i, e) ↦ rw (e, index_row) refl
  ])

  pub empty-IsConsistent : IsConsistent b b.sled.empty
  empty-IsConsistent = record {
    indexed = λ t k ti. b.sled.get-empty t k ∙ sym (index_row-empty t k);
    keyed = λ k v g. absurd (nothing _ (sym (b.sled.get-empty tree_tickets k) ∙ g));
    counted = λ i s hi r. absurd (nothing _ (sym (row-empty i) ∙ r));
    counter = inl (b.sled.get-empty tree_seq seq_ticket);
  }
