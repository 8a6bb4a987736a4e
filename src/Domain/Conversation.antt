-- ===== src/Domain/Conversation.antt =====
-- src/domain/aggregates/conversation.rs, and the loop that a worker of
-- src/adapters/conversation_store.rs runs on it. An instant is a number of nanoseconds, `now`; the
-- wall clock is in milliseconds, `now_ms`.
pub mod Worker
mod Order
mod Examples
use magiclaw.Common.{ℕ, ◌-◌, Bool, true, false, not, List, [], ◌∷◌, ◌++◌, if◌then◌else◌, ltb}
use magiclaw.Common.Int.{ℤ}
use magiclaw.Common.Text.{Text}
use magiclaw.Domain.Message.{Message, RouteKey}
use magiclaw.Domain.Reorder
use magiclaw.Domain.Reorder.{ReorderWindow, insert, flush_all}

pub data ConversationState : Type 0 where
  active idle closed : ConversationState

pub record Conversation : Type 0 where
  pub route_key : RouteKey
  pub participants : List Text
  pub state : ConversationState
  pub reorder_window : ReorderWindow
  pub last_active : ℕ

unfoldable pub new : RouteKey → ℕ → ℕ → Conversation
new route_key reorder_window_ms now = record {
  route_key = route_key;
  participants = [];
  state = active;
  reorder_window = Reorder.new reorder_window_ms;
  last_active = now;
}

abbrev pub woken : ConversationState → ConversationState
woken idle = active
woken active = active
woken closed = closed

unfoldable pub touch : ℕ → Conversation → Conversation
touch now c = record c { last_active = now; state = woken c.state }

unfoldable pub ingest : ℕ → ℤ → Message → Conversation → Conversation × List Message
unfolding touch
ingest now now_ms msg c =
    let (w, ready) = insert msg now_ms c.reorder_window in
    (record (touch now c) { reorder_window = w }, ready)

unfoldable pub is_idle : ℕ → ℕ → Conversation → Bool
is_idle now timeout c = ltb timeout (now - c.last_active)

unfoldable pub mark_idle : Conversation → Conversation
mark_idle c = record c { state = idle }

unfoldable pub drain : Conversation → Conversation × List Message
drain c =
    let (w, messages) = flush_all c.reorder_window in (record c { reorder_window = w }, messages)

unfoldable pub has_pending : Conversation → Bool
has_pending c = not (Reorder.is_empty c.reorder_window)

-- What a turn of the worker's `select!` is woken by: a message, or the flush timer. The close of
-- the channel ends the loop, and the messages that are then drained are only logged.
pub data WorkerEvent : Type 0 where
  received : (now : ℕ) (now_ms : ℤ) → Message → WorkerEvent
  flush_timer : WorkerEvent

-- The conversation after a turn, and the messages that go to the pipeline, in their order.
unfoldable pub worker_turn : WorkerEvent → Conversation → Conversation × List Message
unfolding touch ingest drain
worker_turn (received now now_ms msg) c = ingest now now_ms msg (touch now c)
worker_turn flush_timer c = drain c

unfoldable pub worker_loop : List WorkerEvent → Conversation → Conversation × List Message
unfolding worker_turn
worker_loop [] c = (c, [])
worker_loop (e ∷ es) c =
    let (c', ready) = worker_turn e c in let (c'', rest) = worker_loop es c' in (c'', ready ++ rest)
