-- ===== src/Shared/Ticket/Validation.antt =====
-- What `Ticket::validate` of shared/src/ticket.rs accepts.
use infovulcan.Common.{List, [], ◌∷◌}
use infovulcan.Shared.Status.{
  TicketStatus, open_, awaiting_customer, awaiting_isp, awaiting_partner, closed, auto_close,
}
use infovulcan.Shared.Ticket.{Ticket}

-- The statuses of a ticket that has been dealt with, and those that wait for somebody.
abbrev pub settled : List TicketStatus
settled = closed ∷ auto_close ∷ []

abbrev pub waiting : List TicketStatus
waiting = open_ ∷ awaiting_customer ∷ awaiting_isp ∷ awaiting_partner ∷ []
