-- ===== src/Outbox/Worker/Loops.antt =====
-- The loops of src/application/outbox_worker.rs as repeated turns.
use magiclaw.Common.{ℕ, ◌≡◌, true, Option, List, [], ◌∷◌, arith, All, ◌⊎◌, inl, inr}
use magiclaw.Common.Text.{Text}
use magiclaw.Outbox.Entry.{retrying, status_beq, OutboxEntry}
use magiclaw.Outbox.Backoff.{RetryConfig}
use magiclaw.Outbox.Table.{is_pending, fetch_pending, fetch_retryable}
use magiclaw.Outbox.Table.Fetch.{All-map, All-fetch_pending, All-fetch_retryable}
use magiclaw.Outbox.Worker.{
  World, Environment, attempt, process_entry, process_all, process_batch, process_pending,
  process_retries, tick,
}
use magiclaw.Outbox.Worker.Invariant.{attempt_with_then}

-- A row that one of the queries may return.
abbrev pub Found : (OutboxEntry → Type 0) → OutboxEntry → Type 0
Found R e = R e × ((is_pending e ≡ true) ⊎ (status_beq e.status retrying ≡ true))

module _ {S : Type 0} (env : Environment S) (retry : RetryConfig) where
  module _ (P : World S → Type 0) (Q : OutboxEntry → Type 0)
      (turn : (e : OutboxEntry) (w : World S) → Q e → P w → P (process_entry env retry e w))
      (quiet : (w : World S) (fs : List (Option Text)) → P w → P (record w { faults = fs })) where
    process_all_keeps :
        (es : List OutboxEntry) (w : World S) → All Q es → P w → P (process_all env retry es w)
    unfolding process_all
    process_all_keeps [] w q p = p
    process_all_keeps (e ∷ es) w q p =
        process_all_keeps es (process_entry env retry e w) q.1 (turn e w q.0 p)

    process_batch_keeps :
        (query : World S → List OutboxEntry) (w : World S)
        → All Q (query w)
        → P w
        → P (process_batch env retry query w)
    unfolding process_batch attempt
    process_batch_keeps query w q p =
        attempt_with_then env retry P w.faults (λ v. v) (process_all env retry (query w)) w
          (λ fs. quiet w fs p) (λ fs. process_all_keeps (query w) _ q (quiet w fs p))

  -- A predicate survives a tick when the turns keep it for the entries that a query finds, by the
  -- predicate R on rows that comes with it.
  pub tick_keeps :
      (P : World S → Type 0) (R : OutboxEntry → Type 0)
      → ((w : World S) → P w → All R w.outbox)
      → ((e : OutboxEntry) (w : World S) → Found R e → P w → P (process_entry env retry e w))
      → ((w : World S) (fs : List (Option Text)) → P w → P (record w { faults = fs }))
      → (batch_size : ℕ) (w : World S) → P w
      → P (tick env retry batch_size w)
  unfolding tick process_pending process_retries
  tick_keeps P R rows turn quiet n w p =
      let first =
        process_batch_keeps P (Found R) turn quiet (λ v. fetch_pending n v.outbox) w
          (All-map _ (Found R) (λ e h. (h.0, inl h.1)) _
            (All-fetch_pending R w.outbox (rows w p) n))
          p in
      let v = process_pending env retry n w in
      process_batch_keeps P (Found R) turn quiet
        (λ v. fetch_retryable (env.now_ms v.outside) n v.outbox) v
        (All-map _ (Found R) (λ e h. (h.0, inr (ground (arith, h.1)))) _
          (All-fetch_retryable R v.outbox (rows v first) (env.now_ms v.outside) n))
        first
