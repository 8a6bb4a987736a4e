-- ===== src/Push/Run.antt =====
-- `import_pushes` and `run_push_job` of src/application/push.rs.
pub mod States
pub mod Writes
pub mod Steps
pub mod Pending
pub mod Accounts
pub mod Completes
use magiclaw.Common.{
  ℕ, zero, suc, ◌+◌, ◌≡◌, Bool, true, false, Option, none, some, List, [], ◌∷◌, ◌++◌, if◌then◌else◌,
  length, any, ◌==◌, list_eq, nat_eq,
}
use magiclaw.Common.Int.{ℤ}
use magiclaw.Common.Result.{Result, ok, err}
use magiclaw.Common.Text.{Text, text, trim}
use magiclaw.Database.{World, Db, pure, fail, ◌>>=◌, attempt, with_prefix, execute, query}
use magiclaw.Bindings.{DeliveryTarget, is_blank}
use magiclaw.Bindings.Import.{ImportSummary, empty_summary, count}
use magiclaw.Push.{PushImportRecord, PushJob, PushItem, Store, Env, validate_mode}
use magiclaw.Push.Jobs.{
  RunSummary, new_id, set_job, mark_item, audit_push, enqueue_targets, resolve_item_targets,
  select_pending, sort_items, final_status,
}

abbrev pub count_queued : ℕ → RunSummary → RunSummary
count_queued n s = record s {
  queued_items = s.queued_items + 1;
  enqueued_messages = s.enqueued_messages + n;
}

abbrev pub count_failed : RunSummary → RunSummary
count_failed s = record s { failed_items = s.failed_items + 1 }

module _ (env : Env) where
  unfoldable pub fail_item : ℤ → PushItem → Text → RunSummary → Db Store RunSummary
  unfolding mark_item audit_push
  fail_item ts item e s = do
    _ ← mark_item env item.item_id (text "failed") (some e)
    _ ← audit_push env ts item.project_key (text "failed: " ++ e)
    pure (count_failed s)

  unfoldable pub queue_item :
      ℤ → PushItem → ℕ → Option Text → Text → RunSummary → Db Store RunSummary
  unfolding mark_item audit_push
  queue_item ts item n error note s = do
    _ ← mark_item env item.item_id (text "queued") error
    _ ← audit_push env ts item.project_key note
    pure (count_queued n s)

  -- By how many rows were written, and the first error.
  unfoldable pub settle : ℤ → PushItem → ℕ × Option Text → RunSummary → Db Store RunSummary
  unfolding fail_item queue_item
  settle ts item (zero, none) s = fail_item ts item (text "no targets enqueued") s
  settle ts item (zero, some e) s = fail_item ts item e s
  settle ts item (suc n, none) s =
      queue_item ts item (suc n) none
        (text "queued " ++ item.mode ++ text " (" ++ env.number (suc n) ++ text " targets)") s
  settle ts item (suc n, some e) s =
      queue_item ts item (suc n) (some (text "partial: " ++ e)) (text "partial: " ++ e) s

  unfoldable pub on_targets :
      ℤ → PushItem → RunSummary → Result (List DeliveryTarget) Text → Db Store RunSummary
  unfolding enqueue_targets settle fail_item
  on_targets ts item s (ok targets) =
      enqueue_targets env ts item.message_text targets (0, none) >>= (λ acc. settle ts item acc s)
  on_targets ts item s (err e) = fail_item ts item e s

  unfoldable pub run_item : ℤ → PushItem → RunSummary → Db Store RunSummary
  unfolding resolve_item_targets on_targets
  run_item ts item s = do
    targets ← attempt (resolve_item_targets env item)
    on_targets ts item s targets

  unfoldable pub run_items : ℤ → List PushItem → RunSummary → Db Store RunSummary
  unfolding run_item
  run_items ts [] s = pure s
  run_items ts (item ∷ items) s = do t ← run_item ts item s; run_items ts items t

  unfoldable pub fetch_pending_items : Text → Db Store (List PushItem)
  unfolding select_pending sort_items
  fetch_pending_items job_id =
      with_prefix (text "fetch pending items failed: ")
        (query (λ s. sort_items (select_pending job_id s.items)))

  abbrev pub finish : RunSummary → PushJob → PushJob
  finish s j = record j {
    status = final_status s;
    success_items = s.queued_items;
    failed_items = s.failed_items;
  }

  abbrev pub started : Text → ℕ → RunSummary
  started job_id n = record {
    job_id = job_id;
    total_items = n;
    queued_items = 0;
    failed_items = 0;
    enqueued_messages = 0;
  }

  unfoldable pub run_push_job : ℤ → Text → Db Store RunSummary
  unfolding set_job fetch_pending_items run_items
  run_push_job ts job_id = do
    _ ←
        set_job env (text "mark job running failed: ") job_id
          (λ j. record j { status = text "running" })
    items ← fetch_pending_items job_id
    s ← run_items ts items (started job_id (length items))
    _ ← set_job env (text "finalize job failed: ") job_id (finish s)
    pure s

  -- The optional JSON of the targets.
  abbrev pub targets_column : List DeliveryTarget → Option Text
  targets_column [] = none
  targets_column (t ∷ targets) = some (env.targets_json (t ∷ targets))

  abbrev pub new_item : ℤ → Text → PushImportRecord → Text → PushItem
  new_item ts job_id r id = record {
    item_id = id;
    job_id = job_id;
    project_key = trim r.project_key;
    message_text = r.message_text;
    mode = trim r.mode;
    target_targets_json = targets_column r.target_targets;
    status = text "pending";
    error = none;
    created_at = ts;
  }

  abbrev pub put_item : PushItem → Store → Result Store Text
  put_item i s =
      if any (λ j. j.item_id == i.item_id) s.items
      then err env.conflict
      else ok (record s { items = s.items ++ i ∷ [] })

  unfoldable pub insert_push_item : ℤ → Text → PushImportRecord → Db Store Unit
  unfolding validate_mode
  insert_push_item ts job_id r =
      if is_blank r.project_key
      then fail (text "project_key is empty")
      else if is_blank r.message_text
      then fail (text "message_text is empty")
      else elim (validate_mode (trim r.mode)) [
        | err e ↦ fail e
        | ok u ↦ (do
          id ← new_id env (text "item")
          with_prefix (text "insert push item failed: ")
              (execute (put_item (new_item ts job_id r id))))
      ]

  -- `summary.errors` names a record by its number.
  abbrev pub record_place : ℕ → Text
  record_place n = text "record " ++ env.number n ++ text ": "

  unfoldable pub import_records :
      ℤ → Text → ℕ → List PushImportRecord → ImportSummary → Db Store ImportSummary
  unfolding insert_push_item
  import_records ts job_id n [] s = pure s
  import_records ts job_id n (r ∷ records) s = do
    done ← attempt (insert_push_item ts job_id r)
    import_records ts job_id (n + 1) records (count (record_place n) done s)

  abbrev pub new_job : Text → (source_format path : Text) → PushJob
  new_job job_id source_format path = record {
    job_id = job_id;
    source_format = source_format;
    source_path = path;
    status = text "pending";
    total_items = 0;
    success_items = 0;
    failed_items = 0;
  }

  abbrev pub put_job : PushJob → Store → Result Store Text
  put_job j s =
      if any (λ k. k.job_id == j.job_id) s.jobs
      then err env.conflict
      else ok (record s { jobs = s.jobs ++ j ∷ [] })

  unfoldable pub import_pushes :
      ℤ → (source_format path : Text) → List PushImportRecord → Db Store (Text × ImportSummary)
  unfolding import_records set_job
  import_pushes ts source_format path records = do
    job_id ← new_id env (text "job")
    _ ←
        with_prefix (text "create push job failed: ")
          (execute (put_job (new_job job_id source_format path)))
    s ← import_records ts job_id 1 records empty_summary
    _ ←
        set_job env (text "update push job totals failed: ") job_id
          (λ j. record j { total_items = s.total })
    pure (job_id, s)
