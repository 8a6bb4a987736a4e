-- ===== src/Outbox/Table/Fetch.antt =====
-- What the queries of src/adapters/sqlite_outbox.rs return.
use magiclaw.Common.{
  ℕ, suc, zero, ◌≡◌, Bool, true, List, [], ◌∷◌, arith, All, take, ◌≢◌, list_eq, nat_eq, if_intro,
}
use magiclaw.Common.Int.{ℤ, leb_ℤ}
use magiclaw.Common.Text.{Text}
use magiclaw.Outbox.Entry.{OutboxEntry}
use magiclaw.Outbox.Table.Rows.{has_id_iff}
use magiclaw.Outbox.Table.{
  has_id, select, insert_by, order_by, is_pending, is_due, is_in_flight, creation_time, retry_time,
  fetch_pending, fetch_retryable, fetch_in_flight, update,
}

module _ (P : OutboxEntry → Type 0) where
  All-select :
      (p : OutboxEntry → Bool) (rows : List OutboxEntry)
      → All P rows
      → All (λ e. P e × (p e ≡ true)) (select p rows)
  unfolding select
  All-select p [] h = tt
  All-select p (e ∷ rows) h =
      let rest = All-select p rows h.1 in
      if_intro (List OutboxEntry) (All (λ e. P e × (p e ≡ true))) (p e) _ _ (λ q. ((h.0, q), rest))
        (λ q. rest)

  All-insert_by :
      (key : OutboxEntry → ℤ) (e : OutboxEntry) (rows : List OutboxEntry)
      → P e
      → All P rows
      → All P (insert_by key e rows)
  unfolding insert_by
  All-insert_by key e [] pe h = (pe, tt)
  All-insert_by key e (d ∷ rows) pe h =
      let rest = All-insert_by key e rows pe h.1 in
      if_intro (List OutboxEntry) (All P) (leb_ℤ (key e) (key d)) _ _ (λ q. (pe, h))
        (λ q. (h.0, rest))

  pub All-order_by :
      (key : OutboxEntry → ℤ) (rows : List OutboxEntry) → All P rows → All P (order_by key rows)
  unfolding order_by
  All-order_by key [] h = tt
  All-order_by key (e ∷ rows) h =
      All-insert_by key e (order_by key rows) h.0 (All-order_by key rows h.1)

  All-take : (n : ℕ) (rows : List OutboxEntry) → All P rows → All P (take n rows)
  All-take zero rows h = tt
  All-take (suc n) [] h = tt
  All-take (suc n) (e ∷ rows) h = (h.0, All-take n rows h.1)

pub All-map :
    (P Q : OutboxEntry → Type 0)
    → ((e : OutboxEntry) → P e → Q e)
    → (rows : List OutboxEntry) → All P rows
    → All Q rows
All-map P Q f [] h = tt
All-map P Q f (e ∷ rows) h = (f e h.0, All-map P Q f rows h.1)

module _ (P : OutboxEntry → Type 0) (rows : List OutboxEntry) (h : All P rows) where
  pub All-fetch_pending :
      (limit : ℕ) → All (λ e. P e × (is_pending e ≡ true)) (fetch_pending limit rows)
  unfolding fetch_pending
  All-fetch_pending limit =
      All-take _ limit _ (All-order_by _ creation_time _ (All-select P is_pending rows h))

  pub All-fetch_retryable :
      (now : ℤ) (limit : ℕ)
      → All (λ e. P e × (is_due now e ≡ true)) (fetch_retryable now limit rows)
  unfolding fetch_retryable
  All-fetch_retryable now limit =
      All-take _ limit _ (All-order_by _ retry_time _ (All-select P (is_due now) rows h))

  pub All-fetch_in_flight : All (λ e. P e × (is_in_flight e ≡ true)) (fetch_in_flight rows)
  unfolding fetch_in_flight
  All-fetch_in_flight = All-order_by _ creation_time _ (All-select P is_in_flight rows h)

-- An update that takes P to Q on the rows of its id, where P gives Q on the others.
pub All-update :
    (P Q : OutboxEntry → Type 0) (key : Text) (f : OutboxEntry → OutboxEntry)
    → ((e : OutboxEntry) → e.id ≡ key → P e → Q (f e))
    → ((e : OutboxEntry) → e.id ≢ key → P e → Q e)
    → (rows : List OutboxEntry) → All P rows
    → All Q (update key f rows)
unfolding update
All-update P Q key f at others [] h = tt
All-update P Q key f at others (e ∷ rows) h = (
  if_intro OutboxEntry Q (has_id key e) _ _ (λ q. at e ((has_id_iff key e).0 q) h.0)
      (λ q. others e (λ same. ground (arith, (has_id_iff key e).1 same)) h.0),
  All-update P Q key f at others rows h.1,
)
