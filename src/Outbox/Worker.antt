-- ===== src/Outbox/Worker.antt =====
-- src/application/outbox_worker.rs, crash_recovery.rs and dlq_manager.rs. What the program can
-- reach is the record `World`: the two tables, the events handed to the audit sink, the state of
-- everything outside (the network behind the sender, the clocks), and the results that the
-- database has in store: `some message` makes the next call of a repository fail with that message
-- and change nothing, and past the end of the list every call is carried out. The bodies of the
-- loops of `process_pending` and `process_retries` differ in their log lines only.
pub mod Outcome
pub mod Invariant
pub mod Loops
pub mod Settled
pub mod Recovery
mod Examples
use magiclaw.Common.{
  ℕ, suc, zero, ◌+◌, ◌%◌, ◌/◌, ◌^◌, Bool, true, false, Option, none, some, List, [], ◌∷◌, ◌++◌,
  if◌then◌else◌, ltb, leb, length,
}
use magiclaw.Common.Int.{ℤ, ◌+ℤ◌, u64_as_i64}
use magiclaw.Common.Result.{Result, ok, err}
use magiclaw.Common.Text.{Text, text}
use magiclaw.Outbox.Entry.{
  OutboxStatus, pending, sending, sent, dead_letter, OutboxEntry, DeadLetterEntry, new_dead_letter,
}
use magiclaw.Outbox.Backoff.{RetryConfig, next_delay_ms}
use magiclaw.Outbox.Table.{
  mark_status, mark_retrying, fetch_pending, fetch_retryable, fetch_in_flight, insert_dead,
}

-- `record(Some(route_key), action, result)`.
pub record AuditEvent : Type 0 where
  pub route_key : Text
  pub action : Text
  pub result : Text

pub record World (S : Type 0) : Type 0 where
  pub outbox : List OutboxEntry
  pub dead_letters : List DeadLetterEntry
  pub audit : List AuditEvent
  pub faults : List (Option Text)
  pub outside : S

-- The decimal digits of n, given at least as much fuel as there are digits.
abbrev digits : ℕ → ℕ → Text → Text
digits zero n rest = rest
digits (suc fuel) n rest =
    let more = digits fuel (n / 10) ((48 + n % 10) ∷ rest) in
    if ltb n 10 then (48 + n) ∷ rest else more

-- `{}` of a u32, which has at most ten digits.
abbrev pub show_u32 : ℕ → Text
show_u32 n = digits 10 n []

-- `format!("max retries ({}): {}", n, err)` and `format!("retrying ({}): {}", n, err)`.
abbrev pub counted_message : Text → ℕ → Text → Text
counted_message what n error = what ++ text " (" ++ show_u32 n ++ text "): " ++ error

-- `entry.retry_count + 1`, a u32.
abbrev pub next_count : OutboxEntry → ℕ
next_count e = (e.retry_count + 1) % 2 ^ 32

-- What an environment offers: `OutboxMessageSender::send`, and the clocks, in milliseconds (chrono's
-- `timestamp_millis`) and in seconds (chrono's `timestamp` and SQLite's `unixepoch`).
pub record Environment (S : Type 0) : Type 0 where
  pub send : OutboxEntry → S → Result Unit Text × S
  pub now_ms : S → ℤ
  pub now_s : S → ℤ

module _ {S : Type 0} (env : Environment S) (retry : RetryConfig) where
  abbrev pub attempt_with :
      List (Option Text) → (World S → World S) → World S → Result Unit Text × World S
  attempt_with [] f w = (ok tt, f w)
  attempt_with (none ∷ faults) f w = (ok tt, f (record w { faults = faults }))
  attempt_with (some e ∷ faults) f w = (err e, record w { faults = faults })

  -- One call of a repository.
  unfoldable pub attempt : (World S → World S) → World S → Result Unit Text × World S
  attempt f w = attempt_with w.faults f w

  abbrev pub write_status : OutboxEntry → OutboxStatus → Option Text → World S → World S
  write_status e s error w = record w {
    outbox = mark_status (env.now_s w.outside) e.id s error w.outbox;
  }

  abbrev pub write_retrying : OutboxEntry → ℕ → ℤ → Text → World S → World S
  write_retrying e n next_at error w = record w {
    outbox = mark_retrying (env.now_s w.outside) e.id n next_at error w.outbox;
  }

  -- A dead letter whose id is taken is refused by the database, like a fault.
  abbrev pub write_dead : DeadLetterEntry → World S → World S
  write_dead d w = elim (insert_dead d w.dead_letters) [
    | none ↦ w
    | some letters ↦ record w { dead_letters = letters }
  ]

  abbrev pub record_audit : OutboxEntry → Text → Text → World S → World S
  record_audit e action result w = record w {
    audit = w.audit ++ record { route_key = e.route_key; action = action; result = result } ∷ [];
  }

  -- `sender.send(&entry)` returned `Ok`.
  unfoldable pub on_sent : OutboxEntry → World S → World S
  unfolding attempt
  on_sent e w = record_audit e (text "send") (text "sent") (attempt (write_status e sent none) w).1

  -- The last attempt failed.
  unfoldable pub give_up : OutboxEntry → Text → World S → World S
  unfolding attempt
  give_up e error w =
      let reason = counted_message (text "max retries") (next_count e) error in
      let marked = (attempt (write_status e dead_letter (some error)) w).1 in
      let letter = new_dead_letter e.id (text "outbox") e.payload reason (env.now_s w.outside) in
      record_audit e (text "dead_letter") reason (attempt (write_dead letter) marked).1

  -- An attempt failed, and there will be another one.
  unfoldable pub schedule : OutboxEntry → Text → World S → World S
  unfolding attempt
  schedule e error w =
      let n = next_count e in
      let next_at = env.now_ms w.outside +ℤ u64_as_i64 (next_delay_ms retry n) in
      record_audit e (text "send") (counted_message (text "retrying") n error)
        (attempt (write_retrying e n next_at error) w).1

  unfoldable pub on_failed : OutboxEntry → Text → World S → World S
  unfolding give_up schedule
  on_failed e error w =
      if leb retry.max_retries (next_count e) then give_up e error w else schedule e error w

  -- The match on the result of `sender.send(&entry)`.
  unfoldable pub on_answer : OutboxEntry → Result Unit Text → World S → World S
  unfolding on_sent on_failed
  on_answer e (ok _) w = on_sent e w
  on_answer e (err error) w = on_failed e error w

  unfoldable pub send_entry : OutboxEntry → World S → World S
  unfolding on_answer
  send_entry e w =
      let answer = env.send e w.outside in on_answer e answer.0 (record w { outside = answer.1 })

  -- The body of the loops.
  unfoldable pub process_entry : OutboxEntry → World S → World S
  unfolding attempt send_entry
  process_entry e w =
      let marked = attempt (write_status e sending none) w in
      elim marked.0 [ err _ ↦ marked.1 | ok _ ↦ send_entry e marked.1 ]

  unfoldable pub process_all : List OutboxEntry → World S → World S
  unfolding process_entry
  process_all [] w = w
  process_all (e ∷ es) w = process_all es (process_entry e w)

  -- A query whose rows are then processed; a query that fails ends the call.
  unfoldable pub process_batch : (World S → List OutboxEntry) → World S → World S
  unfolding attempt process_all
  process_batch query w =
      let fetched = attempt (λ v. v) w in
      elim fetched.0 [ err _ ↦ fetched.1 | ok _ ↦ process_all (query w) fetched.1 ]

  unfoldable pub process_pending : ℕ → World S → World S
  unfolding process_batch
  process_pending batch_size = process_batch (λ w. fetch_pending batch_size w.outbox)

  unfoldable pub process_retries : ℕ → World S → World S
  unfolding process_batch
  process_retries batch_size =
      process_batch (λ w. fetch_retryable (env.now_ms w.outside) batch_size w.outbox)

  -- The turn of `outbox_worker_loop` at a tick.
  unfoldable pub tick : ℕ → World S → World S
  unfolding process_pending process_retries
  tick batch_size w = process_retries batch_size (process_pending batch_size w)

  -- The loop of `recover_after_crash`; the first failure ends it.
  unfoldable pub reset_all : List OutboxEntry → World S → Result Unit Text × World S
  unfolding attempt
  reset_all [] w = (ok tt, w)
  reset_all (e ∷ es) w =
      let marked = attempt (write_status e pending none) w in
      let rest = reset_all es marked.1 in
      elim marked.0 [ err error ↦ (err error, marked.1) | ok _ ↦ rest ]

  -- The number of rows that were in flight.
  unfoldable pub recover_after_crash : World S → Result ℕ Text × World S
  unfolding attempt reset_all
  recover_after_crash w =
      let fetched = attempt (λ v. v) w in
      let entries = fetch_in_flight w.outbox in
      let done = reset_all entries fetched.1 in
      elim fetched.0 [
        | err error ↦ (err error, fetched.1)
        | ok _ ↦ (elim done.0 [
          | err error ↦ (err error, done.1)
          | ok _ ↦ (ok (length entries), done.1)
        ])
      ]
