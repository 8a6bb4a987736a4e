-- ===== src/Domain/Conversation/Order.antt =====
-- The order in which a worker of src/adapters/conversation_store.rs hands messages to the pipeline.
use magiclaw.Common.{ℕ, List, [], ◌∷◌}
use magiclaw.Common.Int.{ℤ, ◌<ℤ◌, max_ℤ}
use magiclaw.Domain.Message.{RouteKey, sort_key}
use magiclaw.Domain.Btree.{Above}
use magiclaw.Domain.Reorder
use magiclaw.Domain.Reorder.{insert, cutoff, flush_all}
use magiclaw.Domain.Reorder.Invariant.{Inv, new-Inv, insert-Inv}
use magiclaw.Domain.Reorder.Order.{
  RisingFrom, Rising-append, highest, values-highest, insert-marked,
}
use magiclaw.Domain.Conversation.{
  Conversation, WorkerEvent, received, flush_timer, worker_loop, worker_turn, touch, ingest, drain,
  new,
}
use magiclaw.Domain.Conversation.Worker.{drained-Inv}

-- No message arrives with a sort key at the mark or under it. The mark is raised to the cutoff by
-- every arrival, and by the flush timer to the largest key that the window then holds.
unfoldable pub OnTime : List WorkerEvent → ℤ → Conversation → Type 0
unfolding worker_turn touch ingest drain highest
OnTime [] mark c = Unit
OnTime (received now t m ∷ es) mark c =
    let c' = (worker_turn (received now t m) c).0 in
    (mark <ℤ sort_key m) × OnTime es (max_ℤ mark (cutoff c'.reorder_window)) c'
OnTime (flush_timer ∷ es) mark c =
    OnTime es (highest mark c.reorder_window.buffer) (worker_turn flush_timer c).0

worker_loop-Rising :
    (es : List WorkerEvent) (mark : ℤ) (c : Conversation)
    → Inv c.reorder_window
    → Above mark c.reorder_window.buffer
    → OnTime es mark c
    → RisingFrom mark (worker_loop es c).1
unfolding OnTime worker_loop worker_turn touch ingest drain flush_all
worker_loop-Rising [] mark c v above h = tt
worker_loop-Rising (received now t m ∷ es) mark c v above (h, hs) =
    let w = c.reorder_window in
    let c' = (worker_turn (received now t m) c).0 in
    let (ready, kept) = insert-marked m t mark w v above h in
    Rising-append mark _ _ _ ready (worker_loop-Rising es _ c' (insert-Inv m t w v) kept hs)
worker_loop-Rising (flush_timer ∷ es) mark c v above h =
    let w = c.reorder_window in
    Rising-append mark _ _ _ (values-highest mark w.buffer above v.ascending v.keyed)
      (worker_loop-Rising es _ (worker_turn flush_timer c).0 (drained-Inv w) tt h)

-- Whatever order messages come in and whenever the flush timer fires: if each message arrives with a
-- sort key above the cutoff that the window has reached and above every key that the timer has
-- flushed, the worker of a new conversation hands messages to the pipeline in the strict order of
-- their sort keys.
pub worker_loop-RisingFrom :
    (es : List WorkerEvent) (key : RouteKey) (window_ms now : ℕ) (mark : ℤ)
    → OnTime es mark (new key window_ms now)
    → RisingFrom mark (worker_loop es (new key window_ms now)).1
unfolding new Reorder.new
worker_loop-RisingFrom es key window_ms now mark h =
    worker_loop-Rising es mark (new key window_ms now) (new-Inv window_ms) tt h
