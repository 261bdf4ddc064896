-- ===== src/Shared/Status/Lifecycle.antt =====
-- What the transition lists of shared/src/ticket.rs amount to.
use infovulcan.Common.{
  ℕ, ◌≡◌, refl, sym, ap, ◌∙◌, subst, ◌↔◌, ◌⊎◌, inl, inr, true, false, arith, Bool-cases,
}
use infovulcan.Shared.Status.{
  TicketStatus, open_, status_as_u8, status_from_u8, requires_resolution, requires_next_action,
  is_terminal, allowed_transitions, contains, can_transition_to,
}

-- A history of accepted status changes.
pub data Reaches : TicketStatus → TicketStatus → Type 0 where
  here : (s : TicketStatus) → Reaches s s
  next : (s t u : TicketStatus) → can_transition_to s t ≡ true → Reaches t u → Reaches s u

code_back : (s : TicketStatus) → status_from_u8 (status_as_u8 s) ≡ s
unfolding status_from_u8 status_as_u8
code_back s = ground arith

pub status_as_u8-injective : (s t : TicketStatus) → status_as_u8 s ≡ status_as_u8 t → s ≡ t
status_as_u8-injective s t e = sym (code_back s) ∙ ap status_from_u8 e ∙ code_back t

stays : (s t : TicketStatus) → is_terminal s ≡ true → can_transition_to s t ≡ true → s ≡ t
unfolding is_terminal can_transition_to contains allowed_transitions
stays s t h k = status_as_u8-injective s t (ground arith)

to_open : (s : TicketStatus) → is_terminal s ≡ false → can_transition_to s open_ ≡ true
unfolding is_terminal can_transition_to contains allowed_transitions status_as_u8
to_open s h = ground arith

from_open : (t : TicketStatus) → can_transition_to open_ t ≡ true
unfolding is_terminal can_transition_to contains allowed_transitions status_as_u8
from_open t = ground arith

stuck : (s t : TicketStatus) → is_terminal s ≡ true → Reaches s t → s ≡ t
stuck _ _ h (here s) = refl
stuck _ _ h (next s m t k r) =
    let e = stays s m h k in e ∙ stuck m t (subst (λ x. is_terminal x ≡ true) e h) r

-- A ticket can go through accepted changes from one status to another exactly when they are the
-- same or the first is not terminal: closed and auto-close are sinks, and every other status leads
-- to every status.
pub Reaches-iff : (s t : TicketStatus) → Reaches s t ↔ ((s ≡ t) ⊎ (is_terminal s ≡ false))
Reaches-iff s t = (
  λ r. elim (Bool-cases (is_terminal s)) [ inl h ↦ inl (stuck s t h r) | inr h ↦ inr h ],
  λ c. elim c [
    | inl e ↦ subst (Reaches s) e (here s)
    | inr h ↦ next s open_ t (to_open s h) (next open_ t t (from_open t) (here t))
  ],
)

-- Every discriminant of a status is read back as that status, any other number is read as open, and
-- two statuses with one discriminant are the same; a status requires a resolution exactly when it is
-- terminal, and then it requires no next action; and a terminal status accepts no change but the one
-- to itself, while every other accepts both terminal ones.
pub status_lem :
    ((s : TicketStatus) → status_from_u8 (status_as_u8 s) ≡ s)
    × ((n : ℕ) → (status_as_u8 (status_from_u8 n) ≡ n) ⊎ (status_from_u8 n ≡ open_))
    × ((s : TicketStatus) → requires_resolution s ≡ is_terminal s)
    × ((s : TicketStatus) → requires_resolution s ≡ true → requires_next_action s ≡ false)
    × ((s t : TicketStatus) → is_terminal s ≡ true → (can_transition_to s t ≡ true) ↔ (s ≡ t))
    × ((s t : TicketStatus)
        → is_terminal s ≡ false
        → is_terminal t ≡ true
        → can_transition_to s t ≡ true)
unfolding status_from_u8 status_as_u8 requires_resolution requires_next_action is_terminal
    can_transition_to contains allowed_transitions
status_lem = (
  code_back,
  λ n. ground arith,
  λ s. ground arith,
  λ s h. ground arith,
  λ s t h. (stays s t h, λ e. ground (arith, e)),
  λ s t h k. ground arith,
)
