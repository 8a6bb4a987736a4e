-- ===== src/Push.antt =====
-- src/application/push.rs: the import of push records into `push_jobs` and `push_job_items`, and the
-- run of a job, which writes a row of the outbox for each target. The clock is an argument, in
-- seconds; `Env` has what the libraries answer.
pub mod Jobs
pub mod Targets
pub mod Ids
pub mod Run
mod Examples
use magiclaw.Common.{
  ℕ, zero, suc, ◌+◌, ◌≡◌, Bool, true, false, ◌&&◌, ◌||◌, Option, none, some, List, [], ◌∷◌, ◌++◌,
  map, if◌then◌else◌, ◌==◌, list_eq, nat_eq, is_empty, any, length, leb,
}
use magiclaw.Common.Int.{ℤ, leb_ℤ}
use magiclaw.Common.Result.{Result, ok, err}
use magiclaw.Common.Text.{Text, text, trim}
use magiclaw.Audit.Sink.{AuditRow, write_audit}
use magiclaw.Database.{World, Db, pure, fail, ◌>>=◌, attempt, with_prefix, execute, query}
use magiclaw.Domain.Message.{
  RouteKey, ConversationType, direct, group, thread, bot_session, MessageContent, text_content,
}
use magiclaw.Outbox.Entry.{OutboxEntry}
use magiclaw.Outbox.Entry as Entry
use magiclaw.Bindings.{DeliveryTarget, Tables, TargetRow, Binding, active, is_blank, target_id}

pub record PushImportRecord : Type 0 where
  pub project_key : Text
  pub mode : Text
  pub message_text : Text
  pub target_targets : List DeliveryTarget

-- The rows of `push_jobs` and `push_job_items`.
pub record PushJob : Type 0 where
  pub job_id : Text
  pub source_format : Text
  pub source_path : Text
  pub status : Text
  pub total_items : ℕ
  pub success_items : ℕ
  pub failed_items : ℕ

pub record PushItem : Type 0 where
  pub item_id : Text
  pub job_id : Text
  pub project_key : Text
  pub message_text : Text
  pub mode : Text
  pub target_targets_json : Option Text
  pub status : Text
  pub error : Option Text
  pub created_at : ℤ

-- `issued` counts the ids that `new_id` has made.
pub record Store : Type 0 where
  pub tables : Tables
  pub outbox : List OutboxEntry
  pub jobs : List PushJob
  pub items : List PushItem
  pub audit_log : List AuditRow
  pub issued : ℕ

-- serde's JSON, the UUIDs in the order in which they are made, the id that SQLite hands out next,
-- the message of a violated key, and the decimal of a number.
pub record Env : Type 0 where
  pub route_json : RouteKey → Text
  pub content_json : MessageContent → Text
  pub targets_json : List DeliveryTarget → Text
  pub targets_of_json : Text → Result (List DeliveryTarget) Text
  pub uuid : ℕ → Text
  pub next_id : List AuditRow → ℤ
  pub conflict : Text
  pub number : ℕ → Text

abbrev pub to_ascii_lowercase : Text → Text
to_ascii_lowercase s = map (λ c. if leb 65 c && leb c 90 then c + 32 else c) s

unfoldable pub parse_conversation_type : Text → ConversationType
parse_conversation_type value =
    let name = to_ascii_lowercase (trim value) in
    if name == text "group"
    then group
    else if name == text "thread"
    then thread
    else if name == text "bot_session"
    then bot_session
    else direct

unfoldable pub validate_mode : Text → Result Unit Text
validate_mode mode =
    if mode == text "broadcast" || mode == text "targeted"
    then ok tt
    else err (text "invalid mode: " ++ mode)

-- The scope of a row; an empty one is none.
abbrev pub scope_of : Text → Option Text
scope_of [] = none
scope_of (c ∷ s) = some (c ∷ s)

abbrev pub target_of_row : TargetRow → DeliveryTarget
target_of_row r = record {
  channel = r.channel;
  peer_id = r.peer_id;
  conversation_id = r.conversation_id;
  conversation_type = r.conversation_type;
  account_scope = scope_of r.account_scope;
}

abbrev pub is_bound : Text → Binding → Bool
is_bound key b = b.project_key == key && b.status == active

-- `JOIN delivery_targets t ON t.target_id = b.target_id`, for one binding.
unfoldable pub targets_with_id : Text → List TargetRow → List DeliveryTarget
targets_with_id id [] = []
targets_with_id id (r ∷ rows) =
    let rest = targets_with_id id rows in
    if r.target_id == id && r.status == active then target_of_row r ∷ rest else rest

unfoldable pub broadcast_rows : Text → List TargetRow → List Binding → List DeliveryTarget
unfolding targets_with_id
broadcast_rows key rows [] = []
broadcast_rows key rows (b ∷ bindings) =
    let rest = broadcast_rows key rows bindings in
    if is_bound key b then targets_with_id b.target_id rows ++ rest else rest

unfoldable pub resolve_broadcast_targets : Text → Db Store (List DeliveryTarget)
unfolding broadcast_rows
resolve_broadcast_targets key =
    with_prefix (text "resolve broadcast targets failed: ")
      (query (λ s. broadcast_rows key s.tables.targets s.tables.bindings))

unfoldable pub bound_ids : Text → List Binding → List Text
bound_ids key [] = []
bound_ids key (b ∷ bindings) =
    let rest = bound_ids key bindings in if is_bound key b then b.target_id ∷ rest else rest

unfoldable pub active_target_ids : Text → Db Store (List Text)
unfolding bound_ids
active_target_ids key =
    with_prefix (text "load active target ids failed: ")
      (query (λ s. bound_ids key s.tables.bindings))

-- The targets whose id is allowed, and the others.
unfoldable pub partition_allowed :
    List Text → List DeliveryTarget → List DeliveryTarget × List DeliveryTarget
partition_allowed allowed [] = ([], [])
partition_allowed allowed (t ∷ targets) =
    let rest = partition_allowed allowed targets in
    if any (λ id. id == target_id t) allowed then (t ∷ rest.0, rest.1) else (rest.0, t ∷ rest.1)

-- `names.join(", ")`.
unfoldable pub join_names : List DeliveryTarget → Text
unfolding target_id
join_names [] = []
join_names (t ∷ []) = target_id t
join_names (t ∷ u ∷ targets) = target_id t ++ text ", " ++ join_names (u ∷ targets)

abbrev pub check_allowed :
    List DeliveryTarget × List DeliveryTarget → Db Store (List DeliveryTarget)
check_allowed (valid, []) = pure valid
check_allowed (valid, t ∷ invalid) =
    fail (text "targets not bound to project: " ++ join_names (t ∷ invalid))

abbrev pub check_bound : List DeliveryTarget → Db Store (List DeliveryTarget)
check_bound [] = fail (text "no active bindings for project")
check_bound (t ∷ targets) = pure (t ∷ targets)
