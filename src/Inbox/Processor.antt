-- ===== src/Inbox/Processor.antt =====
-- src/application/inbox_processor.rs over src/adapters/sqlite_inbox.rs and the entries of
-- src/infrastructure/storage/inbox.rs. The table is the list of its rows; `faults` is what the
-- database has in store: `some message` makes the next call fail, and past its end none fails.
pub mod Once
pub mod Kept
mod Examples
use magiclaw.Common.{
  ℕ, Bool, true, false, Option, none, some, List, [], ◌∷◌, ◌++◌, if◌then◌else◌, ◌==◌, list_eq,
  nat_eq, any,
}
use magiclaw.Common.Int.{ℤ}
use magiclaw.Common.Result.{Result, ok, err}
use magiclaw.Common.Text.{Text, text}
use magiclaw.Domain.Message.{Message}

pub data InboxStatus : Type 0 where
  pending processing processed : InboxStatus

unfoldable pub as_str : InboxStatus → Text
as_str pending = text "pending"
as_str processing = text "processing"
as_str processed = text "processed"

unfoldable pub parse : Text → Option InboxStatus
parse s =
    if s == text "pending"
    then some pending
    else if s == text "processing"
    then some processing
    else if s == text "processed"
    then some processed
    else none

pub record InboxEntry : Type 0 where
  pub id : Text
  pub channel : Text
  pub conversation_id : Text
  pub payload : Text
  pub status : InboxStatus
  pub created_at : ℤ
  pub updated_at : ℤ

unfoldable pub new : (id channel conversation_id payload : Text) → ℤ → InboxEntry
new id channel conversation_id payload now_ts = record {
  id = id;
  channel = channel;
  conversation_id = conversation_id;
  payload = payload;
  status = pending;
  created_at = now_ts;
  updated_at = now_ts;
}

abbrev pub has_id : Text → InboxEntry → Bool
has_id key e = e.id == key

-- `SELECT COUNT(*) > 0 ... WHERE id = ?`.
unfoldable pub contains : Text → List InboxEntry → Bool
contains key rows = any (has_id key) rows

-- `INSERT OR IGNORE`.
unfoldable pub insert : InboxEntry → List InboxEntry → List InboxEntry
insert e rows = if any (has_id e.id) rows then rows else rows ++ e ∷ []

-- `UPDATE inbox SET status = ? ... WHERE id = ?`.
unfoldable pub mark_status : ℤ → Text → InboxStatus → List InboxEntry → List InboxEntry
mark_status now key s [] = []
mark_status now key s (e ∷ rows) =
    (if has_id key e then record e { status = s; updated_at = now } else e)
    ∷ mark_status now key s rows

pub record InboxWorld : Type 0 where
  pub rows : List InboxEntry
  pub faults : List (Option Text)

pub data InboxResult : Type 0 where
  done duplicate : InboxResult

-- A call of the repository, and what comes after it where the call does not fail.
abbrev pub call_with :
    List (Option Text)
    → (List InboxEntry → List InboxEntry)
    → (InboxWorld → Result InboxResult Text × InboxWorld)
    → List InboxEntry
    → Result InboxResult Text × InboxWorld
call_with [] f rest rows = rest (record { rows = f rows; faults = [] })
call_with (none ∷ faults) f rest rows = rest (record { rows = f rows; faults = faults })
call_with (some e ∷ faults) f rest rows = (err e, record { rows = rows; faults = faults })

unfoldable pub call :
    (List InboxEntry → List InboxEntry)
    → (InboxWorld → Result InboxResult Text × InboxWorld)
    → InboxWorld
    → Result InboxResult Text × InboxWorld
call f rest w = call_with w.faults f rest w.rows

-- The writes of `process_inbound`, for a new message; `payload` is the message as JSON.
unfoldable pub store :
    ℤ → Message → (payload : Text) → InboxWorld → Result InboxResult Text × InboxWorld
unfolding call
store now msg payload =
    call
      (insert (new msg.id msg.route_key.channel.as_str msg.route_key.conversation_id payload now))
      (call (mark_status now msg.id processing)
        (call (mark_status now msg.id processed) (λ w. (ok done, w))))

unfoldable pub process_inbound :
    ℤ → Message → (payload : Text) → InboxWorld → Result InboxResult Text × InboxWorld
unfolding call store contains
process_inbound now msg payload =
    call (λ rows. rows)
      (λ w. if contains msg.id w.rows then (ok duplicate, w) else store now msg payload w)
