-- ===== src/Outbox/Entry.antt =====
-- src/infrastructure/storage/outbox.rs (entries and their states) and dead_letter.rs.
mod Roundtrip
use magiclaw.Common.{
  ℕ, ◌≡◌, refl, Bool, true, false, Option, none, some, List, [], ◌∷◌, if◌then◌else◌, ◌==◌, list_eq,
  nat_eq,
}
use magiclaw.Common.Int.{ℤ}
use magiclaw.Common.Text.{Text, text}

pub data OutboxStatus : Type 0 where
  pending sending sent retrying dead_letter : OutboxStatus

unfoldable pub as_str : OutboxStatus → Text
as_str pending = text "pending"
as_str sending = text "sending"
as_str sent = text "sent"
as_str retrying = text "retrying"
as_str dead_letter = text "dead_letter"

unfoldable pub parse : Text → Option OutboxStatus
parse s =
    if s == text "pending"
    then some pending
    else if s == text "sending"
    then some sending
    else if s == text "sent"
    then some sent
    else if s == text "retrying"
    then some retrying
    else if s == text "dead_letter"
    then some dead_letter
    else none

-- `PartialEq`, derived.
abbrev pub status_beq : OutboxStatus → OutboxStatus → Bool
status_beq pending pending = true
status_beq sending sending = true
status_beq sent sent = true
status_beq retrying retrying = true
status_beq dead_letter dead_letter = true
status_beq _ _ = false

pub record OutboxEntry : Type 0 where
  pub id : Text
  pub route_key : Text
  pub payload : Text
  pub status : OutboxStatus
  pub retry_count : ℕ
  pub next_retry_at : Option ℤ
  pub last_error : Option Text
  pub created_at : ℤ
  pub updated_at : ℤ

unfoldable pub new : (id route_key payload : Text) → ℤ → OutboxEntry
new id route_key payload now_ts = record {
  id = id;
  route_key = route_key;
  payload = payload;
  status = pending;
  retry_count = 0;
  next_retry_at = none;
  last_error = none;
  created_at = now_ts;
  updated_at = now_ts;
}

pub record DeadLetterEntry : Type 0 where
  pub id : Text
  pub source : Text
  pub payload : Text
  pub reason : Text
  pub created_at : ℤ

unfoldable pub new_dead_letter : (id source payload reason : Text) → ℤ → DeadLetterEntry
new_dead_letter id source payload reason now_ts = record {
  id = id;
  source = source;
  payload = payload;
  reason = reason;
  created_at = now_ts;
}
