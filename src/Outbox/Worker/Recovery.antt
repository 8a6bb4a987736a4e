-- ===== src/Outbox/Worker/Recovery.antt =====
-- src/application/crash_recovery.rs: no row stays in flight.
use magiclaw.Common.{
  ℕ, suc, ◌+◌, ◌≡◌, ◌≢◌, refl, ap, ◌∙◌, Bool, true, false, ◌||◌, none, List, [], ◌∷◌, arith,
  if◌then◌else◌, All, length, list_eq, nat_eq, any,
}
use magiclaw.Common.Result.{ok}
use magiclaw.Common.Int.{ℤ}
use magiclaw.Outbox.Entry.{pending, OutboxEntry}
use magiclaw.Outbox.Backoff.{RetryConfig}
use magiclaw.Outbox.Table.{
  has_id, is_in_flight, fetch_in_flight, select, order_by, insert_by, creation_time, set_status,
}
use magiclaw.Outbox.Table.Fetch.{All-update, All-map}
use magiclaw.Outbox.Table.Rows.{has_id_iff}
use magiclaw.Outbox.Worker.{
  World, Environment, attempt, attempt_with, write_status, reset_all, recover_after_crash,
}

-- The number of rows that a test accepts.
abbrev pub count : (OutboxEntry → Bool) → List OutboxEntry → ℕ
count p [] = 0
count p (e ∷ rows) = (if p e then 1 else 0) + count p rows

length-insert_by :
    (key : OutboxEntry → ℤ) (e : OutboxEntry) (rows : List OutboxEntry)
    → length (insert_by key e rows) ≡ suc (length rows)
unfolding insert_by
length-insert_by key e [] = refl
length-insert_by key e (d ∷ rows) = ground (arith, length-insert_by key e rows)

length-order_by :
    (key : OutboxEntry → ℤ) (rows : List OutboxEntry) → length (order_by key rows) ≡ length rows
unfolding order_by
length-order_by key [] = refl
length-order_by key (e ∷ rows) =
    length-insert_by key e (order_by key rows) ∙ ap suc (length-order_by key rows)

length-select :
    (p : OutboxEntry → Bool) (rows : List OutboxEntry) → length (select p rows) ≡ count p rows
unfolding select
length-select p [] = refl
length-select p (e ∷ rows) = ground (arith, length-select p rows)

length-fetch_in_flight :
    (rows : List OutboxEntry) → length (fetch_in_flight rows) ≡ count is_in_flight rows
unfolding fetch_in_flight
length-fetch_in_flight rows =
    length-order_by creation_time (select is_in_flight rows) ∙ length-select is_in_flight rows

-- An id that some entry of the list has.
any-insert_by :
    (key : OutboxEntry → ℤ) (p : OutboxEntry → Bool) (e : OutboxEntry) (rows : List OutboxEntry)
    → any p (insert_by key e rows) ≡ (p e || any p rows)
unfolding insert_by
any-insert_by key p e [] = refl
any-insert_by key p e (d ∷ rows) = ground (arith, any-insert_by key p e rows)

any-order_by :
    (key : OutboxEntry → ℤ) (p : OutboxEntry → Bool) (rows : List OutboxEntry)
    → any p (order_by key rows) ≡ any p rows
unfolding order_by
any-order_by key p [] = refl
any-order_by key p (e ∷ rows) =
    ground (arith, any-insert_by key p e (order_by key rows), any-order_by key p rows)

-- The list has the id of a row that is in flight.
abbrev Listed : List OutboxEntry → OutboxEntry → Type 0
Listed es e = is_in_flight e ≡ true → any (has_id e.id) es ≡ true

Listed-self :
    (e : OutboxEntry) (rows : List OutboxEntry) → Listed (select is_in_flight (e ∷ rows)) e
unfolding select
Listed-self e rows h = ground (arith, h, (has_id_iff e.id e).1 refl)

Listed-weaken :
    (d e : OutboxEntry) (rows : List OutboxEntry)
    → Listed (select is_in_flight rows) e
    → Listed (select is_in_flight (d ∷ rows)) e
unfolding select
Listed-weaken d e rows l h = ground (arith, l h)

All-Listed-select : (rows : List OutboxEntry) → All (Listed (select is_in_flight rows)) rows
All-Listed-select [] = tt
All-Listed-select (e ∷ rows) = (
  Listed-self e rows,
  All-map (Listed (select is_in_flight rows)) (Listed (select is_in_flight (e ∷ rows)))
      (λ d l. Listed-weaken e d rows l) rows (All-Listed-select rows),
)

All-Listed : (rows : List OutboxEntry) → All (Listed (fetch_in_flight rows)) rows
unfolding fetch_in_flight
All-Listed rows =
    All-map (Listed (select is_in_flight rows))
      (Listed (order_by creation_time (select is_in_flight rows)))
      (λ e l h. any-order_by creation_time (has_id e.id) (select is_in_flight rows) ∙ l h) rows
      (All-Listed-select rows)

Listed-rest :
    (e d : OutboxEntry) (es : List OutboxEntry) → d.id ≢ e.id → Listed (e ∷ es) d → Listed es d
Listed-rest e d es ne l h = ground (arith, l h, ne, has_id_iff d.id e)

module _ {S : Type 0} (env : Environment S) (retry : RetryConfig) where
  attempt-clean :
      (f : World S → World S) (w : World S) → w.faults ≡ [] → attempt env retry f w ≡ (ok tt, f w)
  unfolding attempt
  attempt-clean f w clean = ap (λ fs. attempt_with env retry fs f w) clean

  reset_all-step :
      (e : OutboxEntry) (es : List OutboxEntry) (w : World S)
      → w.faults ≡ []
      → reset_all env retry (e ∷ es) w
        ≡ reset_all env retry es (write_status env retry e pending none w)
  unfolding reset_all attempt
  reset_all-step e es w clean = ground arith

  reset_all-out :
      (es : List OutboxEntry) (w : World S)
      → w.faults ≡ []
      → All (Listed es) w.outbox
      → All (λ e. is_in_flight e ≡ false) (reset_all env retry es w).1.outbox
        × ((reset_all env retry es w).0 ≡ ok tt)
  unfolding reset_all
  reset_all-out [] w clean h = (
    All-map (Listed []) (λ e. is_in_flight e ≡ false) (λ e l. ground (arith, l)) w.outbox h,
    refl,
  )
  reset_all-out (e ∷ es) w clean h = rw (reset_all-step e es w clean) (
      reset_all-out es (write_status env retry e pending none w) clean (
        All-update (Listed (e ∷ es)) (Listed es) e.id
          (set_status (env.now_s w.outside) pending none) (λ d i l q. ground arith)
          (λ d ne l. Listed-rest e d es ne l) w.outbox h))

  recover_after_crash-clean :
      (w : World S)
      → w.faults ≡ []
      → (reset_all env retry (fetch_in_flight w.outbox) w).0 ≡ ok tt
      → recover_after_crash env retry w ≡ (
        ok (length (fetch_in_flight w.outbox)),
        (reset_all env retry (fetch_in_flight w.outbox) w).1,
      )
  unfolding recover_after_crash attempt
  recover_after_crash-clean w clean done = ground (arith, clean, done)

  -- Where the database carries the calls out, the recovery returns the number of rows that were
  -- `sending` or `retrying` and leaves no such row.
  pub recover_after_crash-none_left :
      (w : World S)
      → w.faults ≡ []
      → ((recover_after_crash env retry w).0 ≡ ok (count is_in_flight w.outbox))
        × All (λ e. is_in_flight e ≡ false) (recover_after_crash env retry w).1.outbox
  recover_after_crash-none_left w clean =
      let done = reset_all-out (fetch_in_flight w.outbox) w clean (All-Listed w.outbox) in
      rw (recover_after_crash-clean w clean done.1)
        (ap ok (length-fetch_in_flight w.outbox), done.0)
