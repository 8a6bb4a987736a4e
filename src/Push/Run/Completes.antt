-- ===== src/Push/Run/Completes.antt =====
-- A run of a job by src/application/push.rs comes to its end while the database does not fail.
use magiclaw.Common.{
  ℕ, zero, suc, ◌≡◌, refl, Option, none, some, List, [], ◌∷◌, ◌++◌, if_intro, ◌==◌, list_eq, nat_eq,
  length,
}
use magiclaw.Common.Int.{ℤ}
use magiclaw.Common.Result.{Result, ok, err}
use magiclaw.Common.Text.{Text, text}
use magiclaw.Database.{World, Db, attempt}
use magiclaw.Database.Quiet.{
  Quiet, Runs, Quiet-execute, Quiet-query, Quiet-bind, Runs-execute, Runs-query, Runs-bind,
  Runs-attempt, Runs-pure,
}
use magiclaw.Audit.Sink.{write_audit}
use magiclaw.Outbox.Entry as Entry
use magiclaw.Domain.Message.{text_content}
use magiclaw.Bindings.{DeliveryTarget}
use magiclaw.Push.{
  PushItem, PushJob, Store, Env, resolve_broadcast_targets, active_target_ids, broadcast_rows,
  bound_ids, partition_allowed, check_allowed, check_bound,
}
use magiclaw.Push.Jobs.{
  RunSummary, update_item, update_job, set_job, mark_item, audit_push, put_entry, route_of,
  enqueue_outbox, enqueue_targets, tally, resolve_item_targets, resolve_requested,
  requested_targets, select_pending, sort_items,
}
use magiclaw.Push.Run.Accounts.{Accounts, run_push_job-Accounts}
use magiclaw.Push.Run.{
  settle, fail_item, queue_item, count_failed, count_queued, on_targets, run_item, run_items,
  fetch_pending_items, started, finish, run_push_job,
}

check_bound-Quiet : (targets : List DeliveryTarget) → Quiet (check_bound targets)
check_bound-Quiet [] w h = h
check_bound-Quiet (t ∷ targets) w h = h

check_allowed-Quiet :
    (parts : List DeliveryTarget × List DeliveryTarget) → Quiet (check_allowed parts)
check_allowed-Quiet (valid, []) w h = h
check_allowed-Quiet (valid, t ∷ invalid) w h = h

module _ (env : Env) where
  resolve_requested-Quiet :
      (key : Text) (q : Result (List DeliveryTarget) Text) → Quiet (resolve_requested env key q)
  unfolding resolve_requested active_target_ids
  resolve_requested-Quiet key (err e) w h = h
  resolve_requested-Quiet key (ok []) w h = h
  resolve_requested-Quiet key (ok (t ∷ targets)) w h =
      Quiet-bind (active_target_ids key) (λ a. check_allowed (partition_allowed a (t ∷ targets)))
        (Quiet-query (text "load active target ids failed: ")
          (λ s. bound_ids key s.tables.bindings))
        (λ a. check_allowed-Quiet (partition_allowed a (t ∷ targets))) w h

  resolve_item_targets-Quiet : (item : PushItem) → Quiet (resolve_item_targets env item)
  unfolding resolve_item_targets resolve_broadcast_targets
  resolve_item_targets-Quiet item =
      if_intro (Db Store (List DeliveryTarget)) Quiet (item.mode == text "broadcast") _ _
        (λ e.
          Quiet-bind (resolve_broadcast_targets item.project_key) check_bound
            (Quiet-query (text "resolve broadcast targets failed: ")
              (λ s. broadcast_rows item.project_key s.tables.targets s.tables.bindings))
            check_bound-Quiet)
        (λ e.
          if_intro (Db Store (List DeliveryTarget)) Quiet (item.mode == text "targeted") _ _
            (λ t.
              resolve_requested-Quiet item.project_key
                (requested_targets env item.target_targets_json))
            (λ n w h. h))

  set_job-Runs : (prefix job : Text) (f : PushJob → PushJob) → Runs (set_job env prefix job f)
  unfolding set_job
  set_job-Runs prefix job f =
      Runs-execute prefix (λ s. ok (record s { jobs = update_job job f s.jobs })) (λ s. (_, refl))

  mark_item-Runs : (id status : Text) (error : Option Text) → Runs (mark_item env id status error)
  unfolding mark_item
  mark_item-Runs id status error =
      Runs-execute (text "mark item failed: ")
        (λ s. ok (record s {
          items = update_item id (λ i. record i { status = status; error = error }) s.items;
        }))
        (λ s. (_, refl))

  audit_push-Runs : (ts : ℤ) (key result : Text) → Runs (audit_push env ts key result)
  unfolding audit_push write_audit
  audit_push-Runs ts key result = Runs-attempt _ (Quiet-execute (text "audit write error: ") _)

  enqueue_outbox-Quiet :
      (ts : ℤ) (t : DeliveryTarget) (message : Text) → Quiet (enqueue_outbox env ts t message)
  unfolding enqueue_outbox Entry.new
  enqueue_outbox-Quiet ts t message w h =
      Quiet-execute (text "enqueue outbox failed: ")
        (put_entry env (
          Entry.new (text "push" ++ text "-" ++ env.uuid w.state.issued)
            (env.route_json (route_of env t)) (env.content_json (text_content message)) ts))
        (record w { state = record w.state { issued = suc w.state.issued } }) h

  enqueue_targets-Runs :
      (ts : ℤ) (message : Text) (targets : List DeliveryTarget) (acc : ℕ × Option Text)
      → Runs (enqueue_targets env ts message targets acc)
  unfolding enqueue_targets
  enqueue_targets-Runs ts message [] acc = Runs-pure acc
  enqueue_targets-Runs ts message (t ∷ targets) acc =
      Runs-bind (attempt (enqueue_outbox env ts t message))
        (λ r. enqueue_targets env ts message targets (tally r acc))
        (Runs-attempt (enqueue_outbox env ts t message) (enqueue_outbox-Quiet ts t message))
        (λ r. enqueue_targets-Runs ts message targets (tally r acc))

  fail_item-Runs :
      (ts : ℤ) (item : PushItem) (e : Text) (s : RunSummary) → Runs (fail_item env ts item e s)
  unfolding fail_item
  fail_item-Runs ts item e s =
      Runs-bind (mark_item env item.item_id (text "failed") (some e)) _
        (mark_item-Runs item.item_id (text "failed") (some e))
        (λ a.
          Runs-bind (audit_push env ts item.project_key (text "failed: " ++ e)) _
            (audit_push-Runs ts item.project_key (text "failed: " ++ e))
            (λ b. Runs-pure (count_failed s)))

  queue_item-Runs :
      (ts : ℤ) (item : PushItem) (n : ℕ) (error : Option Text) (note : Text) (s : RunSummary)
      → Runs (queue_item env ts item n error note s)
  unfolding queue_item
  queue_item-Runs ts item n error note s =
      Runs-bind (mark_item env item.item_id (text "queued") error) _
        (mark_item-Runs item.item_id (text "queued") error)
        (λ a.
          Runs-bind (audit_push env ts item.project_key note) _
            (audit_push-Runs ts item.project_key note) (λ b. Runs-pure (count_queued n s)))

  settle-Runs :
      (ts : ℤ) (item : PushItem) (acc : ℕ × Option Text) (s : RunSummary)
      → Runs (settle env ts item acc s)
  unfolding settle
  settle-Runs ts item (zero, none) s = fail_item-Runs ts item (text "no targets enqueued") s
  settle-Runs ts item (zero, some e) s = fail_item-Runs ts item e s
  settle-Runs ts item (suc n, none) s = queue_item-Runs ts item (suc n) none _ s
  settle-Runs ts item (suc n, some e) s =
      queue_item-Runs ts item (suc n) (some (text "partial: " ++ e)) (text "partial: " ++ e) s

  on_targets-Runs :
      (ts : ℤ) (item : PushItem) (s : RunSummary) (r : Result (List DeliveryTarget) Text)
      → Runs (on_targets env ts item s r)
  unfolding on_targets
  on_targets-Runs ts item s (err e) = fail_item-Runs ts item e s
  on_targets-Runs ts item s (ok targets) =
      Runs-bind (enqueue_targets env ts item.message_text targets (zero, none))
        (λ acc. settle env ts item acc s)
        (enqueue_targets-Runs ts item.message_text targets (zero, none))
        (λ acc. settle-Runs ts item acc s)

  run_items-Runs :
      (ts : ℤ) (items : List PushItem) (s : RunSummary) → Runs (run_items env ts items s)
  unfolding run_items run_item
  run_items-Runs ts [] s = Runs-pure s
  run_items-Runs ts (item ∷ items) s =
      Runs-bind (run_item env ts item s) (λ t. run_items env ts items t)
        (Runs-bind (attempt (resolve_item_targets env item)) (λ r. on_targets env ts item s r)
          (Runs-attempt (resolve_item_targets env item) (resolve_item_targets-Quiet item))
          (λ r. on_targets-Runs ts item s r))
        (λ t. run_items-Runs ts items t)

  run_push_job-Runs : (ts : ℤ) (job : Text) → Runs (run_push_job env ts job)
  unfolding run_push_job fetch_pending_items
  run_push_job-Runs ts job =
      Runs-bind
        (set_job env (text "mark job running failed: ") job
          (λ j. record j { status = text "running" }))
        _ (set_job-Runs (text "mark job running failed: ") job _)
        (λ a.
          Runs-bind (fetch_pending_items env job) _
            (Runs-query (text "fetch pending items failed: ")
              (λ s. sort_items (select_pending job s.items)))
            (λ items.
              Runs-bind (run_items env ts items (started env job (length items))) _
                (run_items-Runs ts items (started env job (length items)))
                (λ t.
                  Runs-bind (set_job env (text "finalize job failed: ") job (finish env t)) _
                    (set_job-Runs (text "finalize job failed: ") job (finish env t))
                    (λ b. Runs-pure t))))

  -- While no call of the database fails, a run of a job returns a summary, whatever the items ask for
  -- and also where an id of the outbox is taken: each pending item of the job is counted once, as
  -- queued or as failed, the outbox has as many rows more as the summary says, and the job has
  -- no pending item left.
  pub run_push_job-completes :
      (ts : ℤ) (job : Text) (w : World Store)
      → w.faults ≡ []
      → (s : RunSummary) × (v : World Store) × (run_push_job env ts job w ≡ (ok s, v))
        × Accounts job s w.state v.state
  run_push_job-completes ts job w none_left =
      let (s, v, ran, quiet) = run_push_job-Runs ts job w none_left in
      (s, v, ran, run_push_job-Accounts env ts job s w v ran)
