-- ===== src/Push/Jobs.antt =====
-- The operations of src/application/push.rs on jobs, items and the outbox.
use magiclaw.Common.{
  ℕ, suc, ◌+◌, Bool, ◌&&◌, Option, none, some, List, [], ◌∷◌, ◌++◌, if◌then◌else◌, ◌==◌, list_eq,
  nat_eq, any,
}
use magiclaw.Common.Int.{ℤ, leb_ℤ}
use magiclaw.Common.Result.{Result, ok, err}
use magiclaw.Common.Text.{Text, text}
use magiclaw.Audit.Sink.{write_audit}
use magiclaw.Database.{Db, pure, fail, ◌>>=◌, attempt, with_prefix, execute}
use magiclaw.Domain.Message.{RouteKey, text_content}
use magiclaw.Outbox.Entry.{OutboxEntry}
use magiclaw.Outbox.Entry as Entry
use magiclaw.Bindings.{DeliveryTarget}
use magiclaw.Push.{
  PushJob, PushItem, Store, Env, parse_conversation_type, resolve_broadcast_targets,
  active_target_ids, partition_allowed, check_allowed, check_bound,
}

pub record RunSummary : Type 0 where
  pub job_id : Text
  pub total_items : ℕ
  pub queued_items : ℕ
  pub failed_items : ℕ
  pub enqueued_messages : ℕ

unfoldable pub update_job : Text → (PushJob → PushJob) → List PushJob → List PushJob
update_job key f [] = []
update_job key f (j ∷ jobs) = (if j.job_id == key then f j else j) ∷ update_job key f jobs

unfoldable pub update_item : Text → (PushItem → PushItem) → List PushItem → List PushItem
update_item key f [] = []
update_item key f (i ∷ items) = (if i.item_id == key then f i else i) ∷ update_item key f items

abbrev pub is_pending : Text → PushItem → Bool
is_pending job_id i = i.job_id == job_id && i.status == text "pending"

-- `WHERE job_id = ? AND status = 'pending'`, and `ORDER BY created_at ASC`.
unfoldable pub select_pending : Text → List PushItem → List PushItem
select_pending job_id [] = []
select_pending job_id (i ∷ items) =
    let rest = select_pending job_id items in if is_pending job_id i then i ∷ rest else rest

unfoldable pub insert_item : PushItem → List PushItem → List PushItem
insert_item i [] = i ∷ []
insert_item i (j ∷ items) =
    let rest = insert_item i items in
    if leb_ℤ i.created_at j.created_at then i ∷ j ∷ items else j ∷ rest

unfoldable pub sort_items : List PushItem → List PushItem
unfolding insert_item
sort_items [] = []
sort_items (i ∷ items) = insert_item i (sort_items items)

-- How a target went: the rows written so far, and the first error.
abbrev pub tally : Result Unit Text → ℕ × Option Text → ℕ × Option Text
tally (ok u) (n, e) = (n + 1, e)
tally (err x) (n, none) = (n, some x)
tally (err x) (n, some e) = (n, some e)

abbrev pub final_status : RunSummary → Text
final_status s =
    if s.failed_items == 0
    then text "done"
    else if s.queued_items == 0
    then text "failed"
    else text "partial"

module _ (env : Env) where
  abbrev pub new_id : Text → Db Store Text
  new_id prefix w = (
    ok (prefix ++ text "-" ++ env.uuid w.state.issued),
    record w { state = record w.state { issued = suc w.state.issued } },
  )

  unfoldable pub set_job : (prefix : Text) → Text → (PushJob → PushJob) → Db Store Unit
  unfolding update_job
  set_job prefix job_id f =
      with_prefix prefix (execute (λ s. ok (record s { jobs = update_job job_id f s.jobs })))

  unfoldable pub mark_item : Text → (status : Text) → (error : Option Text) → Db Store Unit
  unfolding update_item
  mark_item item_id status error = with_prefix (text "mark item failed: ") (
      execute (λ s. ok (record s {
        items = update_item item_id (λ i. record i { status = status; error = error }) s.items;
      })))

  -- `write_audit(db, Some(&item.project_key), "project_push", ...).ok()`.
  unfoldable pub audit_push : ℤ → Text → Text → Db Store (Result Unit Text)
  unfolding write_audit
  audit_push ts project_key result = attempt (
      with_prefix (text "audit write error: ") (
        execute (λ s. ok (record s {
          audit_log =
              write_audit (some project_key) (text "project_push") result (env.next_id s.audit_log)
                ts s.audit_log;
        }))))

  unfoldable pub route_of : DeliveryTarget → RouteKey
  unfolding parse_conversation_type
  route_of t = record {
    channel = record { as_str = t.channel };
    conversation_id = t.conversation_id;
    peer_id = t.peer_id;
    conversation_type = parse_conversation_type t.conversation_type;
  }

  -- A plain `INSERT` into the outbox.
  abbrev pub put_entry : OutboxEntry → Store → Result Store Text
  put_entry e s =
      if any (λ d. d.id == e.id) s.outbox
      then err env.conflict
      else ok (record s { outbox = s.outbox ++ e ∷ [] })

  unfoldable pub enqueue_outbox : ℤ → DeliveryTarget → Text → Db Store Unit
  unfolding Entry.new
  enqueue_outbox ts t message_text = do
    id ← new_id (text "push")
    with_prefix (text "enqueue outbox failed: ") (
        execute (
          put_entry (
            Entry.new id (env.route_json (route_of t))
              (env.content_json (text_content message_text)) ts)))

  -- The loop over the targets of an item.
  unfoldable pub enqueue_targets :
      ℤ → Text → List DeliveryTarget → ℕ × Option Text → Db Store (ℕ × Option Text)
  unfolding enqueue_outbox
  enqueue_targets ts message_text [] acc = pure acc
  enqueue_targets ts message_text (t ∷ targets) acc = do
    r ← attempt (enqueue_outbox ts t message_text)
    enqueue_targets ts message_text targets (tally r acc)

  -- The targets that a targeted item asks for.
  abbrev pub requested_targets : Option Text → Result (List DeliveryTarget) Text
  requested_targets none = err (text "targeted item has no target_targets")
  requested_targets (some raw) = env.targets_of_json raw

  unfoldable pub resolve_requested :
      Text → Result (List DeliveryTarget) Text → Db Store (List DeliveryTarget)
  unfolding active_target_ids partition_allowed
  resolve_requested key (err e) = fail e
  resolve_requested key (ok []) = fail (text "targeted item has empty target set")
  resolve_requested key (ok (t ∷ targets)) = do
    allowed ← active_target_ids key
    check_allowed (partition_allowed allowed (t ∷ targets))

  unfoldable pub resolve_item_targets : PushItem → Db Store (List DeliveryTarget)
  unfolding resolve_broadcast_targets resolve_requested
  resolve_item_targets item =
      if item.mode == text "broadcast"
      then resolve_broadcast_targets item.project_key >>= check_bound
      else if item.mode == text "targeted"
      then resolve_requested item.project_key (requested_targets item.target_targets_json)
      else fail (text "invalid mode: " ++ item.mode)
