-- ===== src/Routing/Inbound/Examples.antt =====
-- Tests: a message that a full queue dropped arrives again.
use magiclaw.Common.{◌≡◌, ◌≢◌, refl, ap, [], ◌∷◌, inl, length, arith}
use magiclaw.Common.Int.{pos}
use magiclaw.Common.Text.{text}
use magiclaw.Inbox.Processor.{
  process_inbound, call, store, contains, insert as insert_row, mark_status, new,
}
use magiclaw.Pipeline.Reply.Examples.{question}
use magiclaw.Routing.Dispatch.{route_message, check_and_set}
use magiclaw.Routing.Dispatch.Examples.{Keys, keys}
use magiclaw.Routing.Inbound.{Arrival, Router, inbound, inbound_router, route_stored}
use magiclaw.Routing.Inbound.Once.{inbound_router-once}
use magiclaw.Routing.Routes.Examples.{Queue, queues, empty}
use magiclaw.Routing.Routes.Logs.{logs}
use magiclaw.Routing.Routes.{
  enqueue, get, insert, update_at, get_or_create_tx, try_send, open_route,
}

abbrev router : Router Queue Keys
router = record { inbox = record { rows = []; faults = [] }; dedup = []; store = empty }

abbrev first : Arrival
first = record { message = question.message; payload = text "hi"; stored_at = pos 1; routed_at = 0 }

abbrev second : Arrival
second = record first { message = record question.message { id = text "m2" } }

first_changes : (inbound queues keys first router).dedup ≢ router.dedup
unfolding inbound route_stored process_inbound call store contains insert_row mark_status
    route_message check_and_set
first_changes e = absurd (ground (arith, ap (λ l. length l) e))

inbound_router-once_example :
    ((inbound queues keys first
        (inbound_router queues keys (second ∷ []) (inbound queues keys first router))).store
      ≡ (inbound_router queues keys (second ∷ []) (inbound queues keys first router)).store)
    × ((inbound queues keys first
          (inbound_router queues keys (second ∷ []) (inbound queues keys first router))).dedup
        ≡ (inbound_router queues keys (second ∷ []) (inbound queues keys first router)).dedup)
inbound_router-once_example =
    inbound_router-once queues keys first (second ∷ []) first router refl (inl first_changes)

-- The second message is not handed to the worker, although it arrives twice.
lost :
    logs queues (inbound_router queues keys (first ∷ second ∷ second ∷ []) router).store
    ≡ (question.message.route_key, question.message ∷ []) ∷ []
unfolding inbound_router inbound route_stored process_inbound call store contains insert_row
    mark_status route_message check_and_set enqueue get insert update_at get_or_create_tx try_send
    open_route new
lost = refl
