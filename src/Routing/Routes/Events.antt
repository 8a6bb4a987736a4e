-- ===== src/Routing/Routes/Events.antt =====
-- The steps of src/adapters/conversation_store.rs: those of its callers, and those of its workers.
use magiclaw.Common.{ℕ, List, [], ◌∷◌}
use magiclaw.Common.Int.{ℤ}
use magiclaw.Domain.Message.{Message, RouteKey}
use magiclaw.Routing.Channel.{Mpsc}
use magiclaw.Routing.Routes.{
  ConversationStore, enqueue, receive, flush, pass_on, finish_turn, crash, exit, collect_idle,
}

pub data Event : Type 0 where
  enqueued : RouteKey → Message → ℕ → Event
  received : ℕ → (now : ℕ) → (now_ms : ℤ) → Event
  flushed : ℕ → Event
  passed : ℕ → Event
  finished : ℕ → ℕ → Event
  crashed : ℕ → Event
  exited : ℕ → Event
  collected : ℕ → ℕ → Event

module _ {C : Type 0} (mpsc : Mpsc C Message) where
  unfoldable pub step : Event → ConversationStore C → ConversationStore C
  unfolding enqueue receive flush pass_on finish_turn crash exit collect_idle
  step (enqueued key msg now) s = (enqueue mpsc key msg now s).1
  step (received i now now_ms) s = receive mpsc i now now_ms s
  step (flushed i) s = flush i s
  step (passed i) s = pass_on i s
  step (finished i now) s = finish_turn mpsc i now s
  step (crashed i) s = crash mpsc i s
  step (exited i) s = exit mpsc i s
  step (collected now secs) s = (collect_idle mpsc now secs s).1

  unfoldable pub run : List Event → ConversationStore C → ConversationStore C
  unfolding step
  run [] s = s
  run (e ∷ events) s = run events (step e s)
