-- ===== src/Routing/Routes/Invariant.antt =====
-- The state of the table of src/adapters/conversation_store.rs over a sequence of steps.
use magiclaw.Common.{
  All-append, All-weaken, Option, none, some, ℕ, ◌*◌, ◌≤◌, ◌≡◌, refl, some, List, [], ◌∷◌, All,
  arith, length, length-append, get_elem?, Option-cases, inl, inr, ◌∙◌,
}
use magiclaw.Common.Int.{ℤ}
use magiclaw.Domain.Message.{Message, RouteKey, route_key_eq}
use magiclaw.Domain.Reorder
use magiclaw.Domain.Reorder.{flush_all}
use magiclaw.Domain.Reorder.Invariant.{Inv as WindowInv, new-Inv, insert-Inv}
use magiclaw.Domain.Conversation.{new, worker_turn, ingest, touch, drain}
use magiclaw.Domain.Conversation.Worker.{drained-Inv}
use magiclaw.Routing.Routes.Rows.{get-append, get-length, get-update_at, All-get, All-update_at}
use magiclaw.Routing.Routes.Branches.{
  try_send-missing, try_send-found, receive-missing, receive-found, enqueue-missing, enqueue-found,
  exit_cases,
}
use magiclaw.Routing.Routes.Table.{
  Distinct, All-insert, All-retain, All-refresh, Distinct-insert, Distinct-retain, Distinct-refresh,
}
use magiclaw.Routing.Channel.{
  Mpsc, Laws, Sent, accepted, full, disconnected, sent, not_sent, no_receiver, got, nothing,
  try_send_cases, recv_cases,
}
use magiclaw.Routing.Routes.Events.{
  Event, enqueued, received, flushed, passed, finished, crashed, exited, collected, step, run,
}
use magiclaw.Routing.Routes.{
  ConversationStore, ConversationHandle, Worker, get, update_at, open_route, try_send, on_sent,
  enqueue, receive, finish_turn, refresh, crash, collect_idle, new_worker, flush, pass_on, exit,
  took, ended, flushed_worker, passed_on,
}

module _ {C : Type 0} (mpsc : Mpsc C Message) where
  key-passed_on : (ms : List Message) (w : Worker C) → (passed_on ms w).key ≡ w.key
  key-passed_on [] w = refl
  key-passed_on (m ∷ ms) w = refl

  -- The worker of a route serves the key of the route.
  abbrev pub Served : List (Worker C) → ConversationHandle → Type 0
  Served ws h = (w : Worker C) × (get_elem? ws h.worker ≡ some w) × (w.key ≡ h.key)

  -- The queue is within its bound, and the window holds its messages in order.
  abbrev pub Bounded : ℕ → Worker C → Type 0
  Bounded n w =
      (mpsc.capacity w.channel ≡ n)
      × (length (mpsc.buffered w.channel) ≤ n)
      × WindowInv w.conversation.reorder_window

  Bounded-passed_on :
      (n : ℕ) (ms : List Message) (w : Worker C) → Bounded n w → Bounded n (passed_on ms w)
  Bounded-passed_on n [] w b = b
  Bounded-passed_on n (m ∷ ms) w b = b

  pub record Inv (s : ConversationStore C) : Type 0 where
    pub distinct : Distinct s.routes
    pub served : All (Served s.workers) s.routes
    pub bounded : All (Bounded s.per_route_buffer) s.workers

  module _ (laws : Laws mpsc) where
    Inv-open_route :
        (key : RouteKey) (now : ℕ) (s : ConversationStore C)
        → Inv s
        → Inv (open_route mpsc key now s)
    unfolding open_route new Reorder.new
    Inv-open_route key now s inv =
        let kept =
          All-weaken (Served s.workers) (Served (open_route mpsc key now s).workers) s.routes
            (λ h p. (p.0, get-append h.worker s.workers _ p.0 p.1, p.2)) inv.served in
        record {
          distinct = Distinct-insert _ s.routes inv.distinct;
          served =
              All-insert (Served (open_route mpsc key now s).workers) _ s.routes
                (
                  new_worker mpsc key s.per_route_buffer s.reorder_window_ms now,
                  get-length s.workers _,
                  refl,
                )
                kept;
          bounded = All-append (Bounded s.per_route_buffer) s.workers _ inv.bounded (
            (
              laws.capacity_new s.per_route_buffer,
              rw (laws.buffered_new s.per_route_buffer) (omega arith),
              new-Inv s.reorder_window_ms,
            ),
            tt,
          );
        }

    -- A step that updates a worker, keeping its key and its bound.
    Inv-update_at :
        (i : ℕ) (f : Worker C → Worker C) (s : ConversationStore C)
        → ((w : Worker C) → (f w).key ≡ w.key)
        → ((w : Worker C)
            → get_elem? s.workers i ≡ some w
            → Bounded s.per_route_buffer w
            → Bounded s.per_route_buffer (f w))
        → Inv s
        → Inv (record s { workers = update_at i f s.workers })
    Inv-update_at i f s keys bound inv = record {
      distinct = inv.distinct;
      served =
          All-weaken (Served s.workers) (Served (update_at i f s.workers)) s.routes
            (λ h p. elim (get-update_at i h.worker f s.workers p.0 p.1) [
              | inl same ↦ (p.0, same, p.2)
              | inr new ↦ (f p.0, new, keys p.0 ∙ p.2)
            ])
            inv.served;
      bounded = All-update_at (Bounded s.per_route_buffer) i f s.workers bound inv.bounded;
    }

    Inv-try_send :
        (i : ℕ) (msg : Message) (s : ConversationStore C) → Inv s → Inv (try_send mpsc i msg s).1
    Inv-try_send i msg s inv = elim (Option-cases (get_elem? s.workers i)) [
      | inl missing ↦ rw (try_send-missing mpsc i msg s missing) inv
      | inr (w, found) ↦
          (let bound = All-get (Bounded s.per_route_buffer) i s.workers w inv.bounded found in
            elim (try_send_cases mpsc laws msg w.channel) [
              | sent c e after same room ↦ rw (try_send-found mpsc i msg s w accepted c found e) (
                  Inv-update_at i _ s (λ v. refl)
                    (λ v at b. (
                      same ∙ bound.0,
                      rw after (
                          omega (
                            arith,
                            length-append (mpsc.buffered w.channel) (msg ∷ []),
                            bound,
                            room,
                          )),
                      b.2,
                    ))
                    inv)
              | not_sent e room ↦
                  rw (try_send-found mpsc i msg s w full w.channel found e)
                    (Inv-update_at i _ s (λ v. refl) (λ v at b. (bound.0, bound.1, b.2)) inv)
              | no_receiver e shut ↦
                  rw (try_send-found mpsc i msg s w disconnected w.channel found e)
                    (Inv-update_at i _ s (λ v. refl) (λ v at b. (bound.0, bound.1, b.2)) inv)
            ])
    ]

    Inv-receive :
        (i now : ℕ) (t : ℤ) (s : ConversationStore C) → Inv s → Inv (receive mpsc i now t s)
    unfolding worker_turn ingest touch
    Inv-receive i now t s inv = elim (Option-cases (get_elem? s.workers i)) [
      | inl missing ↦ rw (receive-missing mpsc i now t s missing) inv
      | inr (w, found) ↦ rw (receive-found mpsc i now t s w found) (
          let bound = All-get (Bounded s.per_route_buffer) i s.workers w inv.bounded found in
          elim (recv_cases mpsc laws w.channel) [
            | nothing e empty ↦ rw e inv
            | got m c e before same ↦ rw e (
                Inv-update_at i (took mpsc now t m c) s (λ v. refl)
                  (λ v at b. (
                    same ∙ bound.0,
                    ground (arith, bound.1, before),
                    insert-Inv m t v.conversation.reorder_window b.2,
                  ))
                  inv)
          ])
    ]

    -- A worker's task ends.
    Inv-ended :
        (i : ℕ) (s : ConversationStore C)
        → Inv s
        → Inv (record s { workers = update_at i (ended mpsc) s.workers })
    unfolding drain flush_all
    Inv-ended i s inv =
        Inv-update_at i (ended mpsc) s (λ w. refl)
          (λ w at b. (
            laws.capacity_close w.channel ∙ b.0,
            rw (laws.buffered_close w.channel) (omega arith),
            drained-Inv w.conversation.reorder_window,
          ))
          inv

    Inv-exit : (i : ℕ) (s : ConversationStore C) → Inv s → Inv (exit mpsc i s)
    Inv-exit i s inv = elim (exit_cases mpsc laws i s) [
      | inl e ↦ rw e inv
      | inr (w, ends, e) ↦ rw e (Inv-ended i s inv)
    ]

    Inv-finish_turn : (i now : ℕ) (s : ConversationStore C) → Inv s → Inv (finish_turn mpsc i now s)
    unfolding finish_turn
    Inv-finish_turn i now s inv = go (get_elem? s.workers i) refl
      where
        go :
            (o : Option (Worker C))
            → get_elem? s.workers i ≡ o
            → Inv (elim o [ none ↦ s | some w ↦ record s { routes = refresh w.key now s.routes } ])
        go none e = inv
        go (some w) e = record {
          distinct = Distinct-refresh w.key now s.routes inv.distinct;
          served = All-refresh (Served s.workers) (λ h n p. p) w.key now s.routes inv.served;
          bounded = inv.bounded;
        }

    Inv-on_sent :
        (key : RouteKey) (msg : Message) (now : ℕ) (r : Sent × ConversationStore C)
        → Inv r.1
        → Inv (on_sent mpsc key msg now r).1
    Inv-on_sent key msg now (accepted, t) k = k
    Inv-on_sent key msg now (full, t) k = k
    Inv-on_sent key msg now (disconnected, t) k =
        Inv-try_send (length t.workers) msg (open_route mpsc key now t) (Inv-open_route key now t k)

    Inv-enqueue :
        (key : RouteKey) (msg : Message) (now : ℕ) (s : ConversationStore C)
        → Inv s
        → Inv (enqueue mpsc key msg now s).1
    Inv-enqueue key msg now s inv = elim (Option-cases (get key s.routes)) [
      | inl missing ↦
          (let opened = Inv-open_route key now s inv in
            rw (enqueue-missing mpsc key msg now s missing)
              (Inv-on_sent key msg now _ (Inv-try_send (length s.workers) msg _ opened)))
      | inr (i, found) ↦
          rw (enqueue-found mpsc key msg now i s found)
            (Inv-on_sent key msg now _ (Inv-try_send i msg s inv))
    ]

    -- A step keeps one route for each key, for each route a worker of its key, every queue within
    -- the buffer that is configured, and in every window the order of its messages, none of which is
    -- due.
    pub step-Inv : (e : Event) (s : ConversationStore C) → Inv s → Inv (step mpsc e s)
    unfolding step flush pass_on crash collect_idle worker_turn drain flush_all
    step-Inv (enqueued key msg now) s inv = Inv-enqueue key msg now s inv
    step-Inv (received i now now_ms) s inv = Inv-receive i now now_ms s inv
    step-Inv (flushed i) s inv =
        Inv-update_at i flushed_worker s (λ w. refl)
          (λ w at b. (b.0, b.1, drained-Inv w.conversation.reorder_window)) inv
    step-Inv (passed i) s inv =
        Inv-update_at i (λ w. passed_on w.in_turn w) s (λ w. key-passed_on w.in_turn w)
          (λ w at b. Bounded-passed_on s.per_route_buffer w.in_turn w b) inv
    step-Inv (finished i now) s inv = Inv-finish_turn i now s inv
    step-Inv (crashed i) s inv = Inv-ended i s inv
    step-Inv (exited i) s inv = Inv-exit i s inv
    step-Inv (collected now secs) s inv = record {
      distinct = Distinct-retain now (secs * 1000000000) s.routes inv.distinct;
      served = All-retain (Served s.workers) now (secs * 1000000000) s.routes inv.served;
      bounded = inv.bounded;
    }

    -- Over a run from an empty table.
    pub run-Inv : (events : List Event) (s : ConversationStore C) → Inv s → Inv (run mpsc events s)
    unfolding run
    run-Inv [] s inv = inv
    run-Inv (e ∷ events) s inv = run-Inv events (step mpsc e s) (step-Inv e s inv)
