-- ===== src/Routing/Routes/Examples.antt =====
-- Tests: the routes over a queue that is a list, and a run with a full queue, a collection of idle
-- routes and a worker that panics.
use magiclaw.Common.{
  ℕ, ◌≡◌, refl, Bool, true, false, if◌then◌else◌, ltb, lt→ltb, Option, none, some, List, [], ◌∷◌,
  ◌++◌, length, arith, map,
}
use magiclaw.Common.Int.{pos}
use magiclaw.Common.Result.{err}
use magiclaw.Domain.Message.{Message, RouteKey}
use magiclaw.Pipeline.Reply.Examples.{question}
use magiclaw.Routing.Channel.{Mpsc, Laws, Sent, accepted, full, disconnected}
use magiclaw.Routing.Routes.Events.{Event, enqueued, received, crashed, collected, step, run}
use magiclaw.Routing.Routes.Invariant.{Inv, step-Inv, run-Inv}
use magiclaw.Routing.Routes.Logs.{logs}
use magiclaw.Routing.Routes.{
  ConversationStore, queue_full, enqueue, receive, collect_idle, get, insert, retain, update_at,
  get_or_create_tx, try_send, open_route,
}

pub record Queue : Type 0 where
  size : ℕ
  items : List Message
  receiver : Bool

abbrev send : Message → Queue → Sent × Queue
send m q =
    if q.receiver
    then (if ltb (length q.items) q.size
        then (accepted, record q { items = q.items ++ m ∷ [] })
        else (full, q))
    else (disconnected, q)

abbrev pop : List Message → Queue → Option Message × Queue
pop [] q = (none, q)
pop (m ∷ ms) q = (some m, record q { items = ms })

abbrev pub queues : Mpsc Queue Message
queues = record {
  channel = λ n. record { size = n; items = []; receiver = true };
  try_send = send;
  recv = λ q. pop q.items q;
  close = λ q. record q { items = []; receiver = false };
  buffered = λ q. q.items;
  capacity = λ q. q.size;
  is_open = λ q. q.receiver;
}

pub queues-Laws : Laws queues
queues-Laws = record {
  buffered_new = λ n. refl;
  capacity_new = λ n. refl;
  open_new = λ n. refl;
  send_closed = λ m c h. ground (arith, h);
  send_full = λ m c h k. ground (arith, h, k);
  send_accepted =
      λ m c h k. rw h (rw (lt→ltb (length c.items) c.size k) (refl, refl, (refl, refl)));
  recv_empty = λ c h. ground (arith, h);
  recv_first = λ c m ms h. rw h (refl, refl, (refl, refl));
  buffered_close = λ c. refl;
  capacity_close = λ c. refl;
}

abbrev key : RouteKey
key = question.message.route_key

abbrev pub empty : ConversationStore Queue
empty = record {
  routes = [];
  workers = [];
  per_route_buffer = 1;
  reorder_window_ms = 200;
  persisted = [];
}

pub empty-Inv : Inv queues empty
empty-Inv = record { distinct = tt; served = tt; bounded = tt }

-- The second message waits when the route is collected and the third opens another; the first
-- worker panics.
abbrev events : List Event
events =
    enqueued key question.message 0
    ∷ received 0 0 (pos 5)
    ∷ enqueued key question.message 2
    ∷ collected 9000000000 3
    ∷ enqueued key question.message 9000000001
    ∷ []

-- The conversation has two workers.
two_workers : map (λ l. l.0) (logs queues (run queues events empty)) ≡ key ∷ key ∷ []
unfolding run step enqueue receive collect_idle get insert retain update_at get_or_create_tx
    try_send open_route
two_workers = refl

refused :
    (enqueue queues key question.message 9000000002 (run queues events empty)).0
    ≡ err (queue_full question.message.id)
unfolding run step enqueue receive collect_idle get insert retain update_at get_or_create_tx
    try_send open_route
refused = refl

step-Inv_example : Inv queues (step queues (crashed 0) (run queues events empty))
step-Inv_example =
    step-Inv queues queues-Laws (crashed 0) (run queues events empty)
      (run-Inv queues queues-Laws events empty empty-Inv)
