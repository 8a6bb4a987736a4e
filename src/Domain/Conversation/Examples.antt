-- ===== src/Domain/Conversation/Examples.antt =====
-- Two messages in the wrong order, and a flush after each.
use magiclaw.Common.{ℕ, ◌≡◌, refl, some, none, ap, List, [], ◌∷◌, ◌++◌, arith}
use mathlib.Core.List.{Perm}
use magiclaw.Common.Int.{pos, negsuc, pos_part, saturating_sub, ◌-ℤ◌, max_ℤ, u64_as_i64}
use magiclaw.Domain.Btree.{values}
use magiclaw.Common.Text.{text}
use magiclaw.Domain.Btree
use magiclaw.Domain.Message.{Message, direct, inbound, text_content, sort_key}
use magiclaw.Domain.Reorder.Invariant.{new-Inv}
use magiclaw.Domain.Reorder.Delivery.{messages}
use magiclaw.Domain.Reorder
use magiclaw.Domain.Reorder.{insert, cutoff, remove_all, flush_all}
use magiclaw.Domain.Reorder.Order.{RisingFrom, highest}
use magiclaw.Domain.Conversation.{
  Conversation, WorkerEvent, received, flush_timer, worker_turn, worker_loop, touch, ingest, drain,
  new,
}
use magiclaw.Domain.Conversation.Order.{OnTime, worker_loop-RisingFrom}
use magiclaw.Domain.Conversation.Worker.{arrivals, worker_loop-perm}

abbrev message : ℕ → Message
message seq = record {
  id = text "m";
  route_key = record {
    channel = record { as_str = text "wechat" };
    conversation_id = text "conv_001";
    peer_id = text "user_a";
    conversation_type = direct;
  };
  sequence = some (pos seq);
  timestamp_ms = pos 0;
  direction = inbound;
  content = text_content (text "hello");
  audit_mark = none;
}

abbrev conversation : Conversation
conversation = new (message 0).route_key 200 0

abbrev events : List WorkerEvent
events =
    received 1 (pos 10) (message 2)
    ∷ flush_timer
    ∷ received 2 (pos 11) (message 1)
    ∷ flush_timer
    ∷ []

worker_loop-perm_example :
    Perm
      ((worker_loop events conversation).1
        ++ values (worker_loop events conversation).0.reorder_window.buffer)
      (messages (arrivals events) ++ values conversation.reorder_window.buffer)
unfolding new Reorder.new sort_key
worker_loop-perm_example =
    worker_loop-perm events conversation (new-Inv 200)
      (λ h. h, (λ e. omega (arith, ap pos_part e), tt), (λ h. h, tt, tt))

-- A run of the loop, with all that it calls.
handed_on : List WorkerEvent → List Message
unfolding worker_loop worker_turn touch ingest drain new insert Reorder.new sort_key cutoff
    remove_all flush_all Btree.range_to Btree.insert Btree.remove saturating_sub ◌-ℤ◌ max_ℤ
    u64_as_i64
handed_on es = (worker_loop es conversation).1

abbrev swapped : List WorkerEvent
swapped =
    received 1 (pos 100) (message 300)
    ∷ received 2 (pos 120) (message 100)
    ∷ received 3 (pos 600) (message 700)
    ∷ flush_timer
    ∷ []

swapped_lem : handed_on swapped ≡ message 100 ∷ message 300 ∷ message 700 ∷ []
unfolding handed_on
swapped_lem = refl

-- The timer fires before the first of two messages in the wrong order has had its time.
flushed_early : handed_on events ≡ message 2 ∷ message 1 ∷ []
unfolding handed_on
flushed_early = refl

-- The second of two messages with one sort key replaces the first.
same_key :
    handed_on (
      received 1 (pos 100) (message 300)
      ∷ received 2 (pos 120) (record (message 300) { id = text "n" })
      ∷ flush_timer
      ∷ [])
    ≡ record (message 300) { id = text "n" } ∷ []
unfolding handed_on
same_key = refl

swapped-OnTime : OnTime swapped (negsuc 199) conversation
unfolding OnTime worker_turn touch ingest drain new insert Reorder.new sort_key cutoff remove_all
    flush_all Btree.range_to Btree.insert Btree.remove saturating_sub ◌-ℤ◌ max_ℤ u64_as_i64 highest
swapped-OnTime = (omega arith, (omega arith, (omega arith, tt)))

worker_loop-RisingFrom_example : RisingFrom (negsuc 199) (worker_loop swapped conversation).1
worker_loop-RisingFrom_example =
    worker_loop-RisingFrom swapped (message 0).route_key 200 0 (negsuc 199) swapped-OnTime
