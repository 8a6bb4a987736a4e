-- ===== src/Outbox/Table.antt =====
-- src/adapters/sqlite_outbox.rs and sqlite_dead_letter.rs over the tables of
-- src/infrastructure/db.rs. A table is the list of its rows in the order of their insertion, which
-- also orders the rows that a query's ORDER BY leaves equal; `id` is the primary key of both. Each
-- definition is a statement that the database carries out; `now` is its clock, in seconds.
pub mod Rows
pub mod Fetch
mod Replay
mod Examples
use magiclaw.Common.{
  ℕ, Bool, true, false, ◌&&◌, ◌||◌, Option, none, some, List, [], ◌∷◌, ◌++◌, map, if◌then◌else◌,
  ◌==◌, list_eq, nat_eq, take, any,
}
use magiclaw.Common.Int.{ℤ, pos, leb_ℤ}
use magiclaw.Common.Text.{Text, text}
use magiclaw.Outbox.Entry
use magiclaw.Outbox.Entry.{
  OutboxStatus, pending, sending, sent, retrying, dead_letter, status_beq, OutboxEntry,
  DeadLetterEntry,
}

-- `WHERE id = ?`.
abbrev pub has_id : Text → OutboxEntry → Bool
has_id key e = e.id == key

unfoldable pub lookup : Text → List OutboxEntry → Option OutboxEntry
lookup key [] = none
lookup key (e ∷ rows) = if has_id key e then some e else lookup key rows

-- `INSERT OR IGNORE`.
unfoldable pub insert : OutboxEntry → List OutboxEntry → List OutboxEntry
insert e rows = if any (has_id e.id) rows then rows else rows ++ e ∷ []

-- `UPDATE outbox SET ... WHERE id = ?`.
unfoldable pub update : Text → (OutboxEntry → OutboxEntry) → List OutboxEntry → List OutboxEntry
update key f [] = []
update key f (e ∷ rows) = (if has_id key e then f e else e) ∷ update key f rows

abbrev pub set_status : ℤ → OutboxStatus → Option Text → OutboxEntry → OutboxEntry
set_status now s error e = record e { status = s; last_error = error; updated_at = now }

abbrev pub set_retrying : ℤ → ℕ → ℤ → Text → OutboxEntry → OutboxEntry
set_retrying now retry_count next_retry_at error e = record e {
  status = retrying;
  retry_count = retry_count;
  next_retry_at = some next_retry_at;
  last_error = some error;
  updated_at = now;
}

abbrev pub mark_status : ℤ → Text → OutboxStatus → Option Text → List OutboxEntry → List OutboxEntry
mark_status now key s error = update key (set_status now s error)

abbrev pub mark_retrying : ℤ → Text → ℕ → ℤ → Text → List OutboxEntry → List OutboxEntry
mark_retrying now key retry_count next_retry_at error =
    update key (set_retrying now retry_count next_retry_at error)

-- `WHERE`.
unfoldable pub select : (OutboxEntry → Bool) → List OutboxEntry → List OutboxEntry
select p [] = []
select p (e ∷ rows) = let rest = select p rows in if p e then e ∷ rest else rest

-- `ORDER BY key ASC`.
unfoldable pub insert_by : (OutboxEntry → ℤ) → OutboxEntry → List OutboxEntry → List OutboxEntry
insert_by key e [] = e ∷ []
insert_by key e (d ∷ rows) =
    let rest = insert_by key e rows in if leb_ℤ (key e) (key d) then e ∷ d ∷ rows else d ∷ rest

unfoldable pub order_by : (OutboxEntry → ℤ) → List OutboxEntry → List OutboxEntry
order_by key [] = []
order_by key (e ∷ rows) = insert_by key e (order_by key rows)

abbrev pub is_pending : OutboxEntry → Bool
is_pending e = status_beq e.status pending

-- A NULL is not less than or equal to anything.
abbrev pub is_due : ℤ → OutboxEntry → Bool
is_due now_ms e =
    status_beq e.status retrying
    && (elim e.next_retry_at [ none ↦ false | some at ↦ leb_ℤ at now_ms ])

abbrev pub is_in_flight : OutboxEntry → Bool
is_in_flight e = status_beq e.status sending || status_beq e.status retrying

abbrev pub retry_time : OutboxEntry → ℤ
retry_time e = elim e.next_retry_at [ none ↦ pos 0 | some at ↦ at ]

abbrev pub creation_time : OutboxEntry → ℤ
creation_time e = e.created_at

unfoldable pub fetch_pending : ℕ → List OutboxEntry → List OutboxEntry
fetch_pending limit rows = take limit (order_by creation_time (select is_pending rows))

unfoldable pub fetch_retryable : ℤ → ℕ → List OutboxEntry → List OutboxEntry
fetch_retryable now_ms limit rows = take limit (order_by retry_time (select (is_due now_ms) rows))

-- The query of the recovery.
unfoldable pub fetch_in_flight : List OutboxEntry → List OutboxEntry
fetch_in_flight rows = order_by creation_time (select is_in_flight rows)

-- `INSERT INTO dead_letter`: a second entry under one id breaks the primary key.
abbrev pub is_dead : Text → DeadLetterEntry → Bool
is_dead key d = d.id == key

unfoldable pub insert_dead : DeadLetterEntry → List DeadLetterEntry → Option (List DeadLetterEntry)
insert_dead d letters = if any (is_dead d.id) letters then none else some (letters ++ d ∷ [])

unfoldable pub lookup_dead : Text → List DeadLetterEntry → Option DeadLetterEntry
lookup_dead key [] = none
lookup_dead key (d ∷ letters) = if is_dead key d then some d else lookup_dead key letters

-- `DELETE FROM dead_letter WHERE id = ?`.
unfoldable pub delete_dead : Text → List DeadLetterEntry → List DeadLetterEntry
delete_dead key [] = []
delete_dead key (d ∷ letters) =
    let rest = delete_dead key letters in if is_dead key d then rest else d ∷ rest

abbrev pub set_replayed : Text → ℤ → OutboxEntry → OutboxEntry
set_replayed payload now e = record e {
  status = pending;
  retry_count = 0;
  next_retry_at = none;
  last_error = none;
  payload = payload;
  updated_at = now;
}

-- `replay`, over both tables; `none` where no dead letter has the id.
unfoldable pub replay :
    Text
    → ℤ
    → List OutboxEntry
    → List DeadLetterEntry
    → Option (List OutboxEntry × List DeadLetterEntry × OutboxEntry)
replay key now rows letters = elim (lookup_dead key letters) [
  | none ↦ none
  | some d ↦ (elim (lookup key rows) [
    | some e ↦ some (
      update key (set_replayed d.payload now) rows,
      delete_dead key letters,
      Entry.new key e.route_key d.payload now,
    )
    | none ↦ some (
      rows ++ Entry.new key (text "replayed") d.payload now ∷ [],
      delete_dead key letters,
      Entry.new key (text "replayed") d.payload now,
    )
  ])
]
