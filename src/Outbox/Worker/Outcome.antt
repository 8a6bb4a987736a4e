-- ===== src/Outbox/Worker/Outcome.antt =====
-- What one turn of the loops of src/application/outbox_worker.rs leaves behind.
use magiclaw.Common.{◌≡◌, ◌<◌, ◌≤◌, refl, true, none, some, [], arith, list_eq, nat_eq, any}
use magiclaw.Common.Int.{◌+ℤ◌, u64_as_i64}
use magiclaw.Common.Result.{ok, err}
use magiclaw.Common.Text.{Text, text}
use magiclaw.Outbox.Entry.{sending, sent, dead_letter, OutboxEntry, new_dead_letter}
use magiclaw.Outbox.Backoff.{RetryConfig, next_delay_ms}
use magiclaw.Outbox.Table.{lookup, is_dead, insert_dead, set_status, set_retrying, update}
use magiclaw.Outbox.Table.Rows.{lookup-update, any-append_self}
use magiclaw.Outbox.Worker.{
  World, Environment, attempt, on_sent, give_up, schedule, on_failed, on_answer, send_entry,
  process_entry, next_count, counted_message,
}

module _ {S : Type 0} (env : Environment S) (retry : RetryConfig) where
  -- Where the database carries the calls out and the sender accepts the entry, its row ends as
  -- `sent`, without an error, and is otherwise what it was.
  pub process_entry-sent :
      (e r : OutboxEntry) (w : World S)
      → w.faults ≡ []
      → lookup e.id w.outbox ≡ some r
      → (env.send e w.outside).0 ≡ ok tt
      → lookup e.id (process_entry env retry e w).outbox
        ≡ some (set_status (env.now_s (env.send e w.outside).1) sent none r)
  unfolding process_entry send_entry on_answer on_sent attempt
  process_entry-sent e r w clean at answered = ground (
    arith,
    lookup-update e.id (set_status (env.now_s w.outside) sending none) w.outbox (λ d. refl) r at,
    lookup-update e.id (set_status (env.now_s (env.send e w.outside).1) sent none)
        (update e.id (set_status (env.now_s w.outside) sending none) w.outbox) (λ d. refl)
        (set_status (env.now_s w.outside) sending none r),
  )

  -- Where the database carries the calls out and the sender refuses the entry before its last
  -- attempt, its row waits for a retry, with the failure counted, the error kept, and the delay of
  -- the configuration counted from the refusal.
  pub process_entry-retrying :
      (e r : OutboxEntry) (w : World S) (error : Text)
      → w.faults ≡ []
      → lookup e.id w.outbox ≡ some r
      → (env.send e w.outside).0 ≡ err error
      → next_count e < retry.max_retries
      → lookup e.id (process_entry env retry e w).outbox
        ≡ some (
            set_retrying
              (env.now_s (env.send e w.outside).1)
              (next_count e)
              (env.now_ms (env.send e w.outside).1
                +ℤ u64_as_i64 (next_delay_ms retry (next_count e)))
              error
              r)
  unfolding process_entry send_entry on_answer on_failed schedule attempt
  process_entry-retrying e r w error clean at answered few =
      let now = env.now_s (env.send e w.outside).1 in
      let next_at =
        env.now_ms (env.send e w.outside).1 +ℤ u64_as_i64 (next_delay_ms retry (next_count e)) in
      ground (
        arith,
        lookup-update e.id (set_status (env.now_s w.outside) sending none) w.outbox (λ d. refl) r
            at,
        lookup-update e.id (set_retrying now (next_count e) next_at error)
            (update e.id (set_status (env.now_s w.outside) sending none) w.outbox) (λ d. refl)
            (set_status (env.now_s w.outside) sending none r),
      )

  -- Where the database carries the calls out and the sender refuses the entry at its last attempt,
  -- its row is dead and there is a dead letter under its id.
  pub process_entry-dead :
      (e r : OutboxEntry) (w : World S) (error : Text)
      → w.faults ≡ []
      → lookup e.id w.outbox ≡ some r
      → (env.send e w.outside).0 ≡ err error
      → retry.max_retries ≤ next_count e
      → (lookup e.id (process_entry env retry e w).outbox
          ≡ some (set_status (env.now_s (env.send e w.outside).1) dead_letter (some error) r))
        × (any (is_dead e.id) (process_entry env retry e w).dead_letters ≡ true)
  unfolding process_entry send_entry on_answer on_failed give_up attempt insert_dead new_dead_letter
  process_entry-dead e r w error clean at answered many =
      let now = env.now_s (env.send e w.outside).1 in
      let letter =
        new_dead_letter e.id (text "outbox") e.payload
          (counted_message (text "max retries") (next_count e) error) now in
      ground (
        arith,
        any-append_self letter w.dead_letters,
        lookup-update e.id (set_status (env.now_s w.outside) sending none) w.outbox (λ d. refl) r
            at,
        lookup-update e.id (set_status now dead_letter (some error))
            (update e.id (set_status (env.now_s w.outside) sending none) w.outbox) (λ d. refl)
            (set_status (env.now_s w.outside) sending none r),
      )
