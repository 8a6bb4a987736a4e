-- ===== src/Push/Run/Steps.antt =====
-- What the steps of a run by src/application/push.rs count, and leave of the outbox and the items.
use magiclaw.Common.{
  ℕ, zero, suc, ◌+◌, ◌≡◌, ◌≢◌, refl, ◌∙◌, Option, none, some, ◌++◌, arith, list_eq, nat_eq, length,
}
use magiclaw.Common.Int.{ℤ}
use magiclaw.Common.Result.{Result, ok}
use magiclaw.Common.Text.{Text, text}
use magiclaw.Database.{
  World, Db, bind_ok, execute_ok, execute_intro, with_prefix, context_error, execute, pure, ◌>>=◌,
}
use magiclaw.Audit.Sink.{write_audit}
use magiclaw.Push.{PushItem, Store, Env}
use magiclaw.Push.Jobs.{RunSummary, update_item, mark_item, audit_push}
use magiclaw.Push.Run.{count_queued, count_failed, fail_item, queue_item, settle}

module _ (env : Env) where
  -- A step that ends an item: the outbox as it was, the item no longer pending.
  abbrev pub Marked : PushItem → Store → Store → Type 0
  Marked item s t =
      (length t.outbox ≡ length s.outbox)
      × ((status : Text) × (error : Option Text) × (status ≢ text "pending")
          × (t.items
              ≡ update_item item.item_id (λ i. record i { status = status; error = error })
                  s.items))

  mark_item-Marked :
      (item : PushItem) (status : Text) (error : Option Text) (w v : World Store)
      → status ≢ text "pending"
      → mark_item env item.item_id status error w ≡ (ok tt, v)
      → Marked item w.state v.state
  unfolding mark_item
  mark_item-Marked item status error w v ne h =
      let e =
        execute_ok (text "mark item failed: ")
          (λ s. ok (record s {
            items =
                update_item item.item_id (λ i. record i { status = status; error = error }) s.items;
          }))
          w v h in
      (ground (arith, e), (status, error, ne, ground (arith, e)))

  audit_push-kept :
      (ts : ℤ) (key result : Text) (w : World Store)
      → (r : Result Unit Text) × (v : World Store) × (audit_push env ts key result w ≡ (ok r, v))
        × (length v.state.outbox ≡ length w.state.outbox)
        × (v.state.items ≡ w.state.items)
  unfolding audit_push write_audit
  audit_push-kept ts key result w =
      let f : Store → Result Store Text = λ s. ok (record s {
        audit_log =
            write_audit (some key) (text "project_push") result (env.next_id s.audit_log) ts
              s.audit_log;
      }) in
      let prefix = text "audit write error: " in
      let m : Db Store Unit = with_prefix prefix (execute f) in
      let kept : (length (m w).1.state.outbox ≡ length w.state.outbox)
          × ((m w).1.state.items ≡ w.state.items) =
        execute_intro
          (λ r.
            (length (context_error prefix r).1.state.outbox ≡ length w.state.outbox)
            × ((context_error prefix r).1.state.items ≡ w.state.items))
          f w (λ fs x. (refl, refl)) (λ fs t h. (ground (arith, h), ground (arith, h))) in
      ((m w).0, (m w).1, refl, kept.0, kept.1)

  -- What an item adds to the summary, for a run that goes on.
  abbrev pub Counted : RunSummary → RunSummary → Type 0
  Counted s t =
      (t.total_items ≡ s.total_items)
      × (t.queued_items + t.failed_items ≡ s.queued_items + s.failed_items + 1)

  Marked-after :
      (item : PushItem) (s t u : Store)
      → Marked item s t
      → length u.outbox ≡ length t.outbox
      → u.items ≡ t.items
      → Marked item s u
  Marked-after item s t u (size, (status, error, ne, marked)) h k =
      (h ∙ size, (status, error, ne, k ∙ marked))

  pub fail_item_ok :
      (ts : ℤ) (item : PushItem) (e : Text) (s t : RunSummary) (w v : World Store)
      → fail_item env ts item e s w ≡ (ok t, v)
      → (t ≡ count_failed s) × Marked item w.state v.state
  unfolding fail_item
  fail_item_ok ts item e s t w v h =
      let (a, u, marked, rest) =
        bind_ok (mark_item env item.item_id (text "failed") (some e))
          (λ a.
            audit_push env ts item.project_key (text "failed: " ++ e)
            >>= (λ b. pure (count_failed s)))
          w v t h in
      let (r, x, audited, size, items) =
        audit_push-kept ts item.project_key (text "failed: " ++ e) u in
      let ne : text "failed" ≢ text "pending" = λ q. cc q in
      (
        ground (arith, rest, audited),
        Marked-after item w.state u.state v.state
            (mark_item-Marked item (text "failed") (some e) w u ne marked)
            (ground (arith, rest, audited, size)) (ground (arith, rest, audited, items)),
      )

  queue_item_ok :
      (ts : ℤ) (item : PushItem) (n : ℕ) (error : Option Text) (note : Text) (s t : RunSummary)
      (w v : World Store)
      → queue_item env ts item n error note s w ≡ (ok t, v)
      → (t ≡ count_queued n s) × Marked item w.state v.state
  unfolding queue_item
  queue_item_ok ts item n error note s t w v h =
      let (a, u, marked, rest) =
        bind_ok (mark_item env item.item_id (text "queued") error)
          (λ a. audit_push env ts item.project_key note >>= (λ b. pure (count_queued n s))) w v t
          h in
      let (r, x, audited, size, items) = audit_push-kept ts item.project_key note u in
      let ne : text "queued" ≢ text "pending" = λ q. cc q in
      (
        ground (arith, rest, audited),
        Marked-after item w.state u.state v.state
            (mark_item-Marked item (text "queued") error w u ne marked)
            (ground (arith, rest, audited, size)) (ground (arith, rest, audited, items)),
      )

  pub settle_ok :
      (ts : ℤ) (item : PushItem) (acc : ℕ × Option Text) (s t : RunSummary) (w v : World Store)
      → settle env ts item acc s w ≡ (ok t, v)
      → Counted s t
        × (t.enqueued_messages ≡ s.enqueued_messages + acc.0)
        × Marked item w.state v.state
  unfolding settle
  settle_ok ts item (zero, none) s t w v h =
      let (same, marked) = fail_item_ok ts item (text "no targets enqueued") s t w v h in
      (ground (arith, same), ground (arith, same), marked)
  settle_ok ts item (zero, some e) s t w v h =
      let (same, marked) = fail_item_ok ts item e s t w v h in
      (ground (arith, same), ground (arith, same), marked)
  settle_ok ts item (suc n, none) s t w v h =
      let (same, marked) = queue_item_ok ts item (suc n) none _ s t w v h in
      (ground (arith, same), ground (arith, same), marked)
  settle_ok ts item (suc n, some e) s t w v h =
      let (same, marked) =
        queue_item_ok ts item (suc n) (some (text "partial: " ++ e)) (text "partial: " ++ e) s t w v
          h in
      (ground (arith, same), ground (arith, same), marked)
