-- ===== src/Routing/Routes/Refinement.antt =====
-- What a step of src/adapters/conversation_store.rs may do to the logs of its workers.
use magiclaw.Common.{◌≡◌, List, map, ◌⊎◌}
use magiclaw.Common.Result.{Result, ok, err}
use magiclaw.Domain.Message.{Message, RouteKey}
use magiclaw.Routing.Channel.{Mpsc}
use magiclaw.Routing.Routes.Logs.{Took, Appended, Log, logs, Ended, account}
use magiclaw.Routing.Routes.Rows.{All-get as All-get_elem}
use magiclaw.Routing.Routes.Branches.{Ends}
use magiclaw.Routing.Routes.Table.{All-get}
use magiclaw.Routing.Routes.Events.{
  Event, enqueued, received, flushed, passed, finished, crashed, exited, collected, step,
}
use magiclaw.Routing.Routes.{ConversationStore, Worker, EnqueueError, queue_full, enqueue}

module _ {C : Type 0} (mpsc : Mpsc C Message) where
  -- What a step may do to the logs.
  unfoldable pub Allowed : Event → ConversationStore C → Type 0
  unfolding enqueue step
  Allowed (enqueued key m now) s =
      let r = enqueue mpsc key m now s in
      ((r.0 ≡ ok tt) × Appended key m (logs mpsc s) (logs mpsc r.1))
      ⊎ ((r.0 ≡ err (queue_full m.id)) × (logs mpsc r.1 ≡ logs mpsc s))
  Allowed (received i now now_ms) s =
      Took mpsc i s.workers (step mpsc (received i now now_ms) s).workers
  Allowed (flushed i) s =
      let t = step mpsc (flushed i) s in
      (logs mpsc t ≡ logs mpsc s) × (map (account mpsc) t.workers ≡ map (account mpsc) s.workers)
  Allowed (passed i) s =
      let t = step mpsc (passed i) s in
      (logs mpsc t ≡ logs mpsc s) × (map (account mpsc) t.workers ≡ map (account mpsc) s.workers)
  Allowed (finished i now) s = (step mpsc (finished i now) s).workers ≡ s.workers
  Allowed (crashed i) s = Ended mpsc i s.workers (step mpsc (crashed i) s).workers
  Allowed (exited i) s =
      (step mpsc (exited i) s ≡ s)
      ⊎ (((w : Worker C) × Ends mpsc i s w)
          × Ended mpsc i s.workers (step mpsc (exited i) s).workers)
  Allowed (collected now secs) s = (step mpsc (collected now secs) s).workers ≡ s.workers

  abbrev Enqueued :
      RouteKey → Message → List Log → Result Unit EnqueueError × ConversationStore C → Type 0
  Enqueued key m ls r =
      ((r.0 ≡ ok tt) × Appended key m ls (logs mpsc r.1))
      ⊎ ((r.0 ≡ err (queue_full m.id)) × (logs mpsc r.1 ≡ ls))
