-- ===== src/Routing/Inbound.antt =====
-- The task `inbound_router` of src/infrastructure/runtime.rs: each inbound message goes through the
-- inbox, and a new one to the deduplication and the table of routes.
mod Once
mod Examples
use magiclaw.Common.{ℕ, List, [], ◌∷◌}
use magiclaw.Common.Int.{ℤ}
use magiclaw.Common.Result.{Result, ok, err}
use magiclaw.Common.Text.{Text}
use magiclaw.Domain.Message.{Message}
use magiclaw.Inbox.Processor.{InboxWorld, InboxResult, done, duplicate, process_inbound}
use magiclaw.Routing.Channel.{Mpsc}
use magiclaw.Routing.Routes.{ConversationStore}
use magiclaw.Routing.Dispatch.{Cache, route_message}

-- A message with its form as JSON, and the instants at which it is stored and routed.
pub record Arrival : Type 0 where
  pub message : Message
  pub payload : Text
  pub stored_at : ℤ
  pub routed_at : ℕ

pub record Router (C K : Type 0) : Type 0 where
  pub inbox : InboxWorld
  pub dedup : K
  pub store : ConversationStore C

module _ {C K : Type 0} (mpsc : Mpsc C Message) (cache : Cache K) where
  -- The match on what the inbox answers.
  unfoldable pub route_stored :
      Arrival → Router C K → Result InboxResult Text × InboxWorld → Router C K
  unfolding route_message
  route_stored a r (ok duplicate, w) = record r { inbox = w }
  route_stored a r (err e, w) = record r { inbox = w }
  route_stored a r (ok done, w) =
      let q = route_message mpsc cache a.message a.routed_at r.dedup r.store in
      record { inbox = w; dedup = q.1; store = q.2 }

  unfoldable pub inbound : Arrival → Router C K → Router C K
  unfolding route_stored process_inbound
  inbound a r = route_stored a r (process_inbound a.stored_at a.message a.payload r.inbox)

  unfoldable pub inbound_router : List Arrival → Router C K → Router C K
  unfolding inbound
  inbound_router [] r = r
  inbound_router (a ∷ arrivals) r = inbound_router arrivals (inbound a r)
