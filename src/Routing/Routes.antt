-- ===== src/Routing/Routes.antt =====
-- src/adapters/conversation_store.rs: the table of routes, the queue of each worker, and the
-- collection of idle routes. A worker is its number, which its sender handles carry. A turn of its
-- loop takes a message off the queue, or the flush timer drains the window; the messages of the turn
-- then go through the pipeline one by one. The locks are held for the whole of a step; `persisted` is
-- what `persist_state` was called with. Instants are in nanoseconds.
mod Rows
mod Table
mod Branches
pub mod Logs
pub mod Events
pub mod Invariant
pub mod Refinement
pub mod Examples
use magiclaw.Common.{
  ℕ, zero, suc, ◌+◌, ◌*◌, ◌-◌, Bool, true, false, not, Option, none, some, List, [], ◌∷◌, ◌++◌, map,
  if◌then◌else◌, ◌==◌, nat_eq, any, ltb, length, get_elem?,
}
use magiclaw.Common.Result.{Result, ok, err}
use magiclaw.Common.Text.{Text}
use magiclaw.Domain.Message.{Message, RouteKey, route_key_eq}
use magiclaw.Common.Int.{ℤ}
use magiclaw.Domain.Conversation.{
  Conversation, ConversationState, active, closed, new, received, flush_timer, worker_turn, drain,
}
use magiclaw.Routing.Channel.{Mpsc, Sent, accepted, full, disconnected}

pub record ConversationHandle : Type 0 where
  pub key : RouteKey
  pub worker : ℕ
  pub last_active : ℕ

pub record Worker (C : Type 0) : Type 0 where
  pub key : RouteKey
  pub channel : C
  pub conversation : Conversation
  -- What it has taken off the queue, what of its turn is still to go through the pipeline, and what
  -- has gone through it.
  pub received : List Message
  pub in_turn : List Message
  pub handed_on : List Message

pub record ConversationStore (C : Type 0) : Type 0 where
  pub routes : List ConversationHandle
  pub workers : List (Worker C)
  pub per_route_buffer : ℕ
  pub reorder_window_ms : ℕ
  pub persisted : List (RouteKey × ConversationState)

-- The id of the message that found the queue full.
pub data EnqueueError : Type 0 where
  queue_full : (message_id : Text) → EnqueueError

-- `HashMap::get` and `HashMap::insert` on the table of routes.
unfoldable pub get : RouteKey → List ConversationHandle → Option ℕ
get key [] = none
get key (h ∷ routes) = if h.key == key then some h.worker else get key routes

unfoldable pub insert : ConversationHandle → List ConversationHandle → List ConversationHandle
insert h [] = h ∷ []
insert h (g ∷ routes) =
    let rest = insert h routes in if g.key == h.key then h ∷ routes else g ∷ rest

-- `handle.last_active = Instant::now()`, where the route is there.
unfoldable pub refresh : RouteKey → ℕ → List ConversationHandle → List ConversationHandle
refresh key now [] = []
refresh key now (h ∷ routes) =
    (if h.key == key then record h { last_active = now } else h) ∷ refresh key now routes

-- `retain`, and the keys that it drops.
unfoldable pub retain : ℕ → ℕ → List ConversationHandle → List ConversationHandle × List RouteKey
retain now timeout [] = ([], [])
retain now timeout (h ∷ routes) =
    let rest = retain now timeout routes in
    if ltb timeout (now - h.last_active) then (rest.0, h.key ∷ rest.1) else (h ∷ rest.0, rest.1)

unfoldable pub update_at {ℓ} : {A : Type ℓ} → ℕ → (A → A) → List A → List A
update_at i f [] = []
update_at zero f (x ∷ xs) = f x ∷ xs
update_at (suc i) f (x ∷ xs) = x ∷ update_at i f xs

module _ {C : Type 0} where
  -- The flush timer of a worker.
  abbrev pub flushed_worker : Worker C → Worker C
  flushed_worker w =
      let turn = worker_turn flush_timer w.conversation in
      record w { conversation = turn.0; in_turn = w.in_turn ++ turn.1 }

  unfoldable pub flush : ℕ → ConversationStore C → ConversationStore C
  unfolding update_at
  flush i s = record s { workers = update_at i flushed_worker s.workers }

  -- The first message of the turn has gone through the pipeline, which may have failed.
  abbrev pub passed_on : List Message → Worker C → Worker C
  passed_on [] w = w
  passed_on (m ∷ ms) w = record w { in_turn = ms; handed_on = w.handed_on ++ m ∷ [] }

  unfoldable pub pass_on : ℕ → ConversationStore C → ConversationStore C
  unfolding update_at
  pass_on i s = record s { workers = update_at i (λ w. passed_on w.in_turn w) s.workers }

module _ {C : Type 0} (mpsc : Mpsc C Message) where
  abbrev pub set_channel : C → Worker C → Worker C
  set_channel c w = record w { channel = c }

  -- `spawn_worker`, and the entry in the table.
  abbrev pub new_worker : RouteKey → (capacity window_ms now : ℕ) → Worker C
  new_worker key capacity window_ms now = record {
    key = key;
    channel = mpsc.channel capacity;
    conversation = new key window_ms now;
    received = [];
    in_turn = [];
    handed_on = [];
  }

  unfoldable pub open_route : RouteKey → ℕ → ConversationStore C → ConversationStore C
  unfolding insert
  open_route key now s = record s {
    routes = insert (record { key = key; worker = length s.workers; last_active = now }) s.routes;
    workers = s.workers ++ new_worker key s.per_route_buffer s.reorder_window_ms now ∷ [];
    persisted = s.persisted ++ (key, active) ∷ [];
  }

  unfoldable pub get_or_create_tx : RouteKey → ℕ → ConversationStore C → ℕ × ConversationStore C
  unfolding get open_route
  get_or_create_tx key now s = elim (get key s.routes) [
    | some i ↦ (i, s)
    | none ↦ (length s.workers, open_route key now s)
  ]

  -- `tx.try_send(msg)` on the sender of worker i.
  unfoldable pub try_send : ℕ → Message → ConversationStore C → Sent × ConversationStore C
  unfolding update_at
  try_send i msg s = elim (get_elem? s.workers i) [
    | none ↦ (disconnected, s)
    | some w ↦
        (let sent = mpsc.try_send msg w.channel in
          (sent.0, record s { workers = update_at i (set_channel sent.1) s.workers }))
  ]

  -- The match on the outcome of the first `try_send`.
  abbrev pub on_sent :
      RouteKey
      → Message
      → ℕ
      → Sent × ConversationStore C
      → Result Unit EnqueueError × ConversationStore C
  on_sent key msg now (accepted, s) = (ok tt, s)
  on_sent key msg now (full, s) = (err (queue_full msg.id), s)
  on_sent key msg now (disconnected, s) =
      (ok tt, (try_send (length s.workers) msg (open_route key now s)).1)

  unfoldable pub enqueue :
      RouteKey → Message → ℕ → ConversationStore C → Result Unit EnqueueError × ConversationStore C
  unfolding get_or_create_tx try_send open_route
  enqueue key msg now s =
      let found = get_or_create_tx key now s in on_sent key msg now (try_send found.0 msg found.1)

  -- The worker once it has taken a message off its queue and into its window.
  abbrev pub took : (now : ℕ) → ℤ → Message → C → Worker C → Worker C
  took now now_ms m c w =
      let turn = worker_turn (received now now_ms m) w.conversation in
      record w {
        channel = c;
        conversation = turn.0;
        received = w.received ++ m ∷ [];
        in_turn = w.in_turn ++ turn.1;
      }

  -- A worker receives a message, which starts a turn of its loop.
  abbrev pub on_received :
      ℕ → (now : ℕ) → ℤ → Option Message × C → ConversationStore C → ConversationStore C
  on_received i now now_ms (none, c) s = s
  on_received i now now_ms (some m, c) s = record s {
    workers = update_at i (took now now_ms m c) s.workers;
  }

  unfoldable pub receive : ℕ → (now : ℕ) → ℤ → ConversationStore C → ConversationStore C
  unfolding update_at
  receive i now now_ms s = elim (get_elem? s.workers i) [
    | none ↦ s
    | some w ↦ on_received i now now_ms (mpsc.recv w.channel) s
  ]

  -- The end of the turn of a message.
  unfoldable pub finish_turn : ℕ → ℕ → ConversationStore C → ConversationStore C
  unfolding refresh
  finish_turn i now s = elim (get_elem? s.workers i) [
    | none ↦ s
    | some w ↦ record s { routes = refresh w.key now s.routes }
  ]

  -- A worker's task ends: its receiver is dropped, and its window with it, of which the messages
  -- are at most logged.
  abbrev pub ended : Worker C → Worker C
  ended w = record w {
    channel = mpsc.close w.channel;
    conversation = (drain w.conversation).0;
    in_turn = [];
  }

  -- The task of a worker panics.
  unfoldable pub crash : ℕ → ConversationStore C → ConversationStore C
  unfolding update_at
  crash i s = record s { workers = update_at i ended s.workers }

  -- A worker whose senders are gone: its `recv` gives `None` once its queue is empty, which ends the
  -- loop. Between two turns no message of a turn is left.
  abbrev pub on_closed :
      ℕ → List Message → Option Message × C → ConversationStore C → ConversationStore C
  on_closed i [] (none, c) s = record s { workers = update_at i ended s.workers }
  on_closed i [] (some m, c) s = s
  on_closed i (m ∷ ms) r s = s

  unfoldable pub exit : ℕ → ConversationStore C → ConversationStore C
  unfolding update_at
  exit i s = elim (get_elem? s.workers i) [
    | none ↦ s
    | some w ↦
        if any (λ h. h.worker == i) s.routes
        then s
        else on_closed i w.in_turn (mpsc.recv w.channel) s
  ]

  unfoldable pub active_conversations : ConversationStore C → ℕ
  active_conversations s = length s.routes

  -- The number of routes that were collected.
  unfoldable pub collect_idle : ℕ → ℕ → ConversationStore C → ℕ × ConversationStore C
  unfolding retain
  collect_idle now idle_timeout_secs s =
      let kept = retain now (idle_timeout_secs * 1000000000) s.routes in
      (
        length kept.1,
        record s { routes = kept.0; persisted = s.persisted ++ map (λ key. (key, closed)) kept.1 },
      )
