-- ===== src/Domain/Conversation/Worker.antt =====
-- What becomes of the messages that a worker of src/adapters/conversation_store.rs takes.
use magiclaw.Common.{List, [], ◌∷◌, ◌++◌}
use mathlib.Core.List.{Perm, perm_middle, perm_append_comm, append_assoc, append-nil}
use mathlib.Core.List.Perm
use magiclaw.Common.Int.{ℤ}
use magiclaw.Domain.Message.{Message}
use magiclaw.Domain.Btree.{values}
use magiclaw.Domain.Reorder.{ReorderWindow, insert, flush_all}
use magiclaw.Domain.Reorder.Invariant.{Inv, insert-Inv}
use magiclaw.Domain.Reorder.Delivery.{
  Distinct, Distinct-insert, messages, perm_front, insert-perm_fresh,
}
use magiclaw.Domain.Conversation.{
  Conversation, WorkerEvent, received, flush_timer, worker_turn, worker_loop, touch, ingest, drain,
}

-- The messages of the events, with their times.
abbrev pub arrivals : List WorkerEvent → List (Message × ℤ)
arrivals [] = []
arrivals (received now now_ms m ∷ es) = (m, now_ms) ∷ arrivals es
arrivals (flush_timer ∷ es) = arrivals es

pub drained-Inv : (w : ReorderWindow) → Inv (flush_all w).0
unfolding flush_all
drained-Inv w = record { ascending = tt; keyed = tt; held = tt }

Distinct-nil : (ms : List (Message × ℤ)) (b : List (ℤ × Message)) → Distinct ms b → Distinct ms []
Distinct-nil [] b d = tt
Distinct-nil ((m, t) ∷ ms) b (h, hs, d) = (λ x. x, hs, Distinct-nil ms b d)

-- Whatever order messages and timers come in, a worker neither loses nor repeats a message while it
-- runs, if the sort keys of all of them and of those that it holds are different: what went to the
-- pipeline and what it still holds are together what arrived and what it held before.
pub worker_loop-perm :
    (es : List WorkerEvent) (c : Conversation)
    → Inv c.reorder_window
    → Distinct (arrivals es) c.reorder_window.buffer
    → Perm
        ((worker_loop es c).1 ++ values (worker_loop es c).0.reorder_window.buffer)
        (messages (arrivals es) ++ values c.reorder_window.buffer)
unfolding worker_loop worker_turn touch ingest drain flush_all
worker_loop-perm [] c v d = Perm.refl _
worker_loop-perm (received now t m ∷ es) c v (h, hs, d) =
    let w = c.reorder_window in
    let c' = (worker_turn (received now t m) c).0 in
    let ready = (insert m t w).1 in
    let ih =
      worker_loop-perm es c' (insert-Inv m t w v) (Distinct-insert (arrivals es) m t w v hs d) in
    rw
      (append_assoc ready (worker_loop es c').1
        (values (worker_loop es c').0.reorder_window.buffer))
      (Perm.trans (Perm.append_left ready ih) (
        Perm.trans (perm_front ready (messages (arrivals es)) (values (insert m t w).0.buffer)) (
          Perm.trans (Perm.append_left (messages (arrivals es)) (insert-perm_fresh m t w v h))
            (perm_middle (messages (arrivals es)) (values w.buffer)))))
worker_loop-perm (flush_timer ∷ es) c v d =
    let w = c.reorder_window in
    let c' = (drain c).0 in
    let ih = worker_loop-perm es c' (drained-Inv w) (Distinct-nil (arrivals es) w.buffer d) in
    rw
      (append_assoc (values w.buffer) (worker_loop es c').1
        (values (worker_loop es c').0.reorder_window.buffer))
      (Perm.trans (Perm.append_left (values w.buffer) ih) (
        rw (append-nil (messages (arrivals es)))
          (perm_append_comm (values w.buffer) (messages (arrivals es)))))
