-- ===== src/Db/Machine/Frame.antt =====
-- The trees of db/src/storage.rs that hold tickets, and writes of users that leave them alone.
use infovulcan.Common.{
  ◌≡◌, refl, sym, ap, ◌∙◌, inl, inr, Bool, true, false, ◌||◌, Option, none, some, arith, Bool-cases,
  Bytes, beq, eq_of_beq,
}
use mathlib.Core.Bool.{false≢true}
use infovulcan.Common.Word.{to_be_bytes}
use mathlib.Core.Path.{fun_ext}
use infovulcan.Db.Types.{
  Backend, StoredUser, tree_tickets, tree_seq, seq_ticket, tree_users, idx_user_name,
  idx_user_email, idx_user_role,
}
use infovulcan.Db.Tickets.Entries.{is_ticket_index, has_entry}
use infovulcan.Db.Tickets.Invariant.{row, last_id, IsConsistent, index_row}
use infovulcan.Db.Users.Effect.{Writes, active_entries, entries_of}
use infovulcan.Db.Users.{user_index_entries}

-- The trees that hold tickets: rows, indexes and the counter.
unfoldable pub is_ticket_tree : Bytes → Bool
is_ticket_tree t = beq tree_tickets t || beq tree_seq t || is_ticket_index t

user_trees :
    (is_ticket_tree tree_users ≡ false)
    × (is_ticket_tree idx_user_name ≡ false)
    × (is_ticket_tree idx_user_email ≡ false)
    × (is_ticket_tree idx_user_role ≡ false)
unfolding is_ticket_tree beq
user_trees = (refl, refl, refl, refl)

pub other_tree :
    (s t : Bytes) → is_ticket_tree s ≡ false → is_ticket_tree t ≡ true → beq s t ≡ false
other_tree s t h k = elim (Bool-cases (beq s t)) [
  | inl e ↦ absurd (false≢true (sym h ∙ ap is_ticket_tree (eq_of_beq s t e) ∙ k))
  | inr e ↦ e
]

entries_other_tree :
    (u : Option StoredUser) (entity t k : Bytes)
    → is_ticket_tree t ≡ true
    → has_entry (entries_of u) entity t k ≡ false
unfolding has_entry entries_of active_entries user_index_entries
entries_other_tree none entity t k h = refl
entries_other_tree (some u) entity t k h = ground (
  arith,
  other_tree idx_user_name t user_trees.1 h,
  other_tree idx_user_email t user_trees.2 h,
  other_tree idx_user_role t user_trees.3 h,
)

new_other_tree :
    (u : StoredUser) (entity t k : Bytes)
    → is_ticket_tree t ≡ true
    → has_entry (active_entries u) entity t k ≡ false
unfolding entries_of
new_other_tree u entity t k h = entries_other_tree (some u) entity t k h

module _ (b : Backend) where
  -- The two databases agree on the trees of tickets.
  unfoldable pub Agrees : b.sled.Db → b.sled.Db → Type 0
  Agrees d d' = (t k : Bytes) → is_ticket_tree t ≡ true → b.sled.get d' t k ≡ b.sled.get d t k

  ticket_trees :
      (is_ticket_tree tree_tickets ≡ true)
      × (is_ticket_tree tree_seq ≡ true)
      × ((t : Bytes) → is_ticket_index t ≡ true → is_ticket_tree t ≡ true)
  unfolding is_ticket_tree beq
  ticket_trees = (refl, refl, λ t h. ground (arith, h))

  pub row-Agrees : (d d' : b.sled.Db) → Agrees d d' → row b d' ≡ row b d
  unfolding row Agrees
  row-Agrees d d' h = fun_ext (λ id. rw (row, h tree_tickets (to_be_bytes id) ticket_trees.0) refl)

  pub last_id-Agrees : (d d' : b.sled.Db) → Agrees d d' → last_id b d' ≡ last_id b d
  unfolding last_id Agrees
  last_id-Agrees d d' h = rw (last_id, h tree_seq seq_ticket ticket_trees.1) refl

  pub IsConsistent-Agrees : (d d' : b.sled.Db) → Agrees d d' → IsConsistent b d → IsConsistent b d'
  unfolding Agrees
  IsConsistent-Agrees d d' h c = record {
    indexed = λ t k i.
        h t k (ticket_trees.2 t i)
        ∙ c.indexed t k i
        ∙ ap (λ r. index_row r t k) (sym (row-Agrees d d' h));
    keyed = λ k v g. c.keyed k v (sym (h tree_tickets k ticket_trees.0) ∙ g);
    counted = λ id s lt e.
        rw (last_id-Agrees d d' h)
          (c.counted id s lt (ap (λ r. r id) (sym (row-Agrees d d' h)) ∙ e));
    counter = rw (h tree_seq seq_ticket ticket_trees.1) c.counter;
  }

  pub Writes-Agrees :
      (d d' : b.sled.Db) (uuid : Bytes) (old : Option StoredUser) (stored : StoredUser)
      → Writes b d d' uuid old stored
      → Agrees d d'
  unfolding Agrees
  Writes-Agrees d d' uuid old stored w t k h =
      w.everywhere t k
      ∙ ground (
        arith,
        other_tree tree_users t user_trees.0 h,
        entries_other_tree old uuid t k h,
        new_other_tree stored uuid t k h,
      )
