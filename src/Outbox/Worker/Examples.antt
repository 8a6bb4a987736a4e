-- ===== src/Outbox/Worker/Examples.antt =====
-- A worker whose peer refuses the payload "bad" and takes a second for each answer, on small tables.
use magiclaw.Common.{
  ℕ, ◌*◌, length, ◌≡◌, ◌<◌, refl, true, false, none, some, List, [], ◌∷◌, arith, ◌≢◌, if◌then◌else◌,
  ◌==◌, list_eq, nat_eq, All, any,
}
use magiclaw.Common.Int.{pos}
use magiclaw.Common.Result.{Result, ok, err}
use magiclaw.Common.Text.{Text, text}
use magiclaw.Outbox.Entry.{OutboxStatus, pending, sent, retrying, dead_letter, OutboxEntry}
use magiclaw.Outbox.Backoff.{default_retry}
use magiclaw.Outbox.Table.{lookup, is_dead, is_in_flight, set_status}
use magiclaw.Outbox.Worker.{World, Environment, process_entry, tick, recover_after_crash}
use magiclaw.Outbox.Worker.Outcome.{process_entry-dead}
use magiclaw.Outbox.Worker.Settled.{tick-within_budget, tick-unsent, tick-settled}
use magiclaw.Outbox.Worker.Recovery.{recover_after_crash-none_left}

abbrev reply : Text → Result Unit Text
reply payload = if payload == text "bad" then err (text "timeout") else ok tt

-- The outside is the list of the ids that the sender was called for.
abbrev peer : Environment (List Text)
peer = record {
  send = λ e s. (reply e.payload, e.id ∷ s);
  now_ms = λ s. pos (length s * 1000);
  now_s = λ s. pos (length s);
}

abbrev row : Text → Text → OutboxStatus → ℕ → OutboxEntry
row key payload status retry_count = record {
  id = key;
  route_key = text "wechat/c1";
  payload = payload;
  status = status;
  retry_count = retry_count;
  next_retry_at = some (pos 0);
  last_error = none;
  created_at = pos 0;
  updated_at = pos 0;
}

abbrev good_row : OutboxEntry
good_row = row (text "a") (text "good") pending 0

abbrev bad_row : OutboxEntry
bad_row = row (text "b") (text "bad") retrying 1

abbrev last_row : OutboxEntry
last_row = row (text "c") (text "bad") retrying 4

abbrev sent_row : OutboxEntry
sent_row = row (text "d") (text "good") sent 0

abbrev busy : World (List Text)
busy = record {
  outbox = good_row ∷ bad_row ∷ last_row ∷ sent_row ∷ [];
  dead_letters = [];
  audit = [];
  faults = [];
  outside = [];
}

process_entry-dead_example :
    (lookup (text "c") (process_entry peer default_retry last_row busy).outbox
      ≡ some (set_status (pos 1) dead_letter (some (text "timeout")) last_row))
    × (any (is_dead (text "c")) (process_entry peer default_retry last_row busy).dead_letters
        ≡ true)
unfolding lookup
process_entry-dead_example =
    process_entry-dead peer default_retry last_row last_row busy (text "timeout") refl refl refl
      (ground arith)

tick-within_budget_example : All (λ e. e.retry_count < 5) (tick peer default_retry 10 busy).outbox
tick-within_budget_example =
    tick-within_budget peer default_retry 10 busy
      (ground arith, (ground arith, (ground arith, (ground arith, tt))))

-- The peer refuses what goes out under the id "b" when that is `bad_row`'s payload.
abbrev refusing : Environment (List Text)
refusing = record {
  send = λ e s. (if e.id == text "b" then err (text "timeout") else ok tt, e.id ∷ s);
  now_ms = λ s. pos (length s * 1000);
  now_s = λ s. pos (length s);
}

refusing_b : (e : OutboxEntry) (s : List Text) → e.id ≡ text "b" → (refusing.send e s).0 ≢ ok tt
refusing_b e s h = ground (arith, h, (list_eq {A = ℕ}).eq_iff e.id (text "b"))

tick-unsent_example :
    All (λ e. e.id ≡ text "b" → e.status ≢ sent) (tick refusing default_retry 10 busy).outbox
tick-unsent_example =
    tick-unsent refusing default_retry (text "b") refusing_b 10 busy
      (λ k q. cc q, (λ k q. cc q, (λ k q. cc q, (λ k q. ground (arith, k), tt))))

abbrev NotCalled : List Text → Type 0
NotCalled s = any (λ t. t == text "d") s ≡ false

others-NotCalled :
    (e : OutboxEntry) (s : List Text) → e.id ≢ text "d" → NotCalled s → NotCalled (peer.send e s).1
others-NotCalled e s h q = ground (arith, h, (list_eq {A = ℕ}).eq_iff e.id (text "d"))

tick-settled_example :
    All (λ e. e.id ≡ text "d" → e ≡ sent_row) (tick peer default_retry 10 busy).outbox
    × NotCalled (tick peer default_retry 10 busy).outside
tick-settled_example =
    tick-settled peer default_retry (text "d") sent_row NotCalled refl others-NotCalled 10 busy
      (
        λ k. absurd (ground (arith, k)),
        (λ k. absurd (ground (arith, k)), (λ k. absurd (ground (arith, k)), (λ k. refl, tt))),
      )
      refl

recover_after_crash-none_left_example :
    ((recover_after_crash peer default_retry busy).0 ≡ ok 2)
    × All (λ e. is_in_flight e ≡ false) (recover_after_crash peer default_retry busy).1.outbox
recover_after_crash-none_left_example = recover_after_crash-none_left peer default_retry busy refl
