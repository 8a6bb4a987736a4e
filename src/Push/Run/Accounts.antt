-- ===== src/Push/Run/Accounts.antt =====
-- What a run of a job by src/application/push.rs reports.
use magiclaw.Common.{
  zero, ◌+◌, ◌≡◌, ◌≢◌, sym, ap, subst, ◌∙◌, false, Option, none, List, [], ◌∷◌, All, arith, list_eq,
  nat_eq, length,
}
use magiclaw.Common.Int.{ℤ}
use magiclaw.Common.Result.{Result, ok, err}
use magiclaw.Common.Text.{Text, text}
use magiclaw.Database.{World, Db, bind_ok, execute_ok, query_ok, pure, ◌>>=◌}
use magiclaw.Bindings.{DeliveryTarget}
use magiclaw.Push.{PushItem, PushJob, Store, Env}
use magiclaw.Push.Jobs.{
  RunSummary, update_item, update_job, set_job, is_pending, select_pending, sort_items,
  resolve_item_targets,
}
use magiclaw.Push.Run.{
  on_targets, run_item, run_items, fetch_pending_items, started, finish, run_push_job,
}
use magiclaw.Push.Run.States.{resolve_item_targets_state}
use magiclaw.Push.Run.Steps.{Counted, fail_item_ok, settle_ok}
use magiclaw.Push.Run.Writes.{enqueue_targets-Wrote}
use magiclaw.Push.Run.Pending.{
  Covered, Covered-fetched, Covered-marked, none_pending, length-sort_items,
}

-- What a run that returns says of the job.
pub record Accounts (job : Text) (s : RunSummary) (before after : Store) : Type 0 where
  pub total : s.total_items ≡ length (select_pending job before.items)
  pub counts : s.queued_items + s.failed_items ≡ s.total_items
  pub outbox : length after.outbox ≡ length before.outbox + s.enqueued_messages
  pub settled : All (λ i. is_pending job i ≡ false) after.items

module _ (env : Env) where
  -- The outbox has grown by what the summary has counted in between.
  abbrev Grown : RunSummary → RunSummary → Store → Store → Type 0
  Grown s t a b = length b.outbox + s.enqueued_messages ≡ length a.outbox + t.enqueued_messages

  abbrev Ended : PushItem → Store → Store → Type 0
  Ended item s t =
      (status : Text) × (error : Option Text) × (status ≢ text "pending")
      × (t.items
          ≡ update_item item.item_id (λ i. record i { status = status; error = error }) s.items)

  on_targets_ok :
      (ts : ℤ) (item : PushItem) (s t : RunSummary) (r : Result (List DeliveryTarget) Text)
      (w v : World Store)
      → on_targets env ts item s r w ≡ (ok t, v)
      → Counted env s t × Grown s t w.state v.state × Ended item w.state v.state
  unfolding on_targets
  on_targets_ok ts item s t (err e) w v h =
      let (same, (size, marked)) = fail_item_ok env ts item e s t w v h in
      (ground (arith, same), ground (arith, same, size), marked)
  on_targets_ok ts item s t (ok targets) w v h =
      let (n, acc, u, done, counted, wrote) =
        enqueue_targets-Wrote env ts item.message_text targets (zero, none) w in
      let (count, enqueued, (size, (status, error, ne, marked))) =
        settle_ok env ts item acc s t u v (ground (arith, done, h)) in
      (
        count,
        omega (arith, enqueued, size, wrote.longer, counted),
        (status, error, ne, cc (marked, wrote.items_kept)),
      )

  run_item_ok :
      (ts : ℤ) (item : PushItem) (s t : RunSummary) (w v : World Store)
      → run_item env ts item s w ≡ (ok t, v)
      → Counted env s t × Grown s t w.state v.state × Ended item w.state v.state
  unfolding run_item
  run_item_ok ts item s t w v h =
      let r = resolve_item_targets env item w in
      subst (λ a. Counted env s t × Grown s t a v.state × Ended item a v.state)
        (resolve_item_targets_state env item w) (on_targets_ok ts item s t r.0 r.1 v h)

  items_same :
      (s t : RunSummary) (w v : World Store) → pure s w ≡ (ok t, v) → w.state.items ≡ v.state.items
  items_same s t w v h = cc h

  run_items_ok :
      (ts : ℤ) (job : Text) (items : List PushItem) (s t : RunSummary) (w v : World Store)
      → run_items env ts items s w ≡ (ok t, v)
      → Covered job items w.state.items
      → (t.total_items ≡ s.total_items)
        × (t.queued_items + t.failed_items ≡ s.queued_items + s.failed_items + length items)
        × Grown s t w.state v.state
        × Covered job [] v.state.items
  unfolding run_items
  run_items_ok ts job [] s t w v h c = (
    ground (arith, h),
    ground (arith, h),
    ground (arith, h),
    subst (Covered job []) (items_same s t w v h) c,
  )
  run_items_ok ts job (item ∷ items) s t w v h c =
      let (a, u, ran, rest) =
        bind_ok (run_item env ts item s) (λ a. run_items env ts items a) w v t h in
      let (count, grown, (status, error, ne, marked)) = run_item_ok ts item s a w u ran in
      let covered =
        subst (Covered job items) (sym marked)
          (Covered-marked job item items w.state.items status error ne c) in
      let (total, counted, more, none_left) = run_items_ok ts job items a t u v rest covered in
      (total ∙ count.0, omega (arith, counted, count), omega (arith, more, grown), none_left)

  set_job_ok :
      (prefix job : Text) (f : PushJob → PushJob) (a : Unit) (w v : World Store)
      → set_job env prefix job f w ≡ (ok a, v)
      → (v.state.items ≡ w.state.items) × (v.state.outbox ≡ w.state.outbox)
  unfolding set_job
  set_job_ok prefix job f a w v h =
      let e = execute_ok prefix (λ t. ok (record t { jobs = update_job job f t.jobs })) w v h in
      (ground (arith, e), ground (arith, e))

  fetch_ok :
      (job : Text) (items : List PushItem) (w v : World Store)
      → fetch_pending_items env job w ≡ (ok items, v)
      → (items ≡ sort_items (select_pending job w.state.items)) × (v.state ≡ w.state)
  unfolding fetch_pending_items
  fetch_ok job items w v h =
      query_ok (text "fetch pending items failed: ") (λ t. sort_items (select_pending job t.items))
        w v items h

  -- The run from the fetched items on.
  work-Accounts :
      (ts : ℤ) (job : Text) (items : List PushItem) (s : RunSummary) (before : Store)
      (w v : World Store)
      → items ≡ sort_items (select_pending job before.items)
      → w.state.items ≡ before.items
      → w.state.outbox ≡ before.outbox
      → run_items env ts items (started env job (length items)) w ≡ (ok s, v)
      → Accounts job s before v.state
  work-Accounts ts job items s before w v found same out h =
      let covered =
        subst (λ l. Covered job l w.state.items) (sym found)
          (subst (Covered job (sort_items (select_pending job before.items))) (sym same)
            (Covered-fetched job before.items)) in
      let (total, counts, grown, none_left) =
        run_items_ok ts job items (started env job (length items)) s w v h covered in
      let size = ap (λ l. length l) found ∙ length-sort_items (select_pending job before.items) in
      record {
        total = total ∙ size;
        counts = omega (arith, counts, total);
        outbox = omega (arith, grown, ap (λ l. length l) out);
        settled = none_pending job v.state.items none_left;
      }

  -- Where a run of a job returns a summary, whichever of its writes of the outbox failed: each of the
  -- job's pending items is counted once, as queued or as failed; the outbox has as many rows more
  -- as the summary says; and the job has no pending item left.
  pub run_push_job-Accounts :
      (ts : ℤ) (job : Text) (s : RunSummary) (w v : World Store)
      → run_push_job env ts job w ≡ (ok s, v)
      → Accounts job s w.state v.state
  unfolding run_push_job
  run_push_job-Accounts ts job s w v h =
      let last : RunSummary → Db Store RunSummary =
        λ t. set_job env (text "finalize job failed: ") job (finish env t) >>= (λ b. pure t) in
      let work : List PushItem → Db Store RunSummary =
        λ items. run_items env ts items (started env job (length items)) >>= last in
      let (a, x, ran, rest) =
        bind_ok
          (set_job env (text "mark job running failed: ") job
            (λ j. record j { status = text "running" }))
          (λ a. fetch_pending_items env job >>= work) w v s h in
      let (first_items, first_outbox) =
        set_job_ok (text "mark job running failed: ") job _ a w x ran in
      let (items, y, fetched, more) = bind_ok (fetch_pending_items env job) work x v s rest in
      let (found, same) = fetch_ok job items x y fetched in
      let (t, z, worked, finished) =
        bind_ok (run_items env ts items (started env job (length items))) last y v s more in
      let (b, q, marked, over) =
        bind_ok (set_job env (text "finalize job failed: ") job (finish env t)) (λ b. pure t) z v s
          finished in
      let (last_items, last_outbox) =
        set_job_ok (text "finalize job failed: ") job _ b z q marked in
      let r =
        work-Accounts ts job items t w.state y z (ground (arith, found, first_items))
          (ground (arith, same, first_items)) (ground (arith, same, first_outbox)) worked in
      let over_items : v.state.items ≡ z.state.items = ground (arith, over, last_items) in
      let over_outbox : v.state.outbox ≡ z.state.outbox = ground (arith, over, last_outbox) in
      let end : s ≡ t = ground (arith, over) in
      record {
        total = ground (arith, end, r.total);
        counts = ground (arith, end, r.counts);
        outbox = ground (arith, end, over_outbox, r.outbox);
        settled = subst (All (λ i. is_pending job i ≡ false)) (sym over_items) r.settled;
      }
