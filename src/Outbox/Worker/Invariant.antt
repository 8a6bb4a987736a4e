-- ===== src/Outbox/Worker/Invariant.antt =====
-- What the loops of src/application/outbox_worker.rs keep, whichever calls of the database fail.
use magiclaw.Common.{
  if_intro, ℕ, ◌≡◌, ◌<◌, refl, sym, subst, false, Option, none, some, List, [], ◌∷◌, arith, leb,
  All,
}
use magiclaw.Common.Int.{ℤ}
use magiclaw.Common.Result.{Result, ok, err}
use magiclaw.Common.Text.{Text}
use magiclaw.Outbox.Entry.{
  OutboxStatus, sending, sent, dead_letter, status_beq, OutboxEntry, DeadLetterEntry,
}
use magiclaw.Outbox.Backoff.{RetryConfig}
use magiclaw.Outbox.Table.{set_status, set_retrying, mark_status}
use magiclaw.Outbox.Table.Fetch.{All-update}
use magiclaw.Outbox.Worker.{
  World, Environment, attempt, attempt_with, on_sent, give_up, schedule, on_failed, on_answer,
  send_entry, process_entry, next_count, write_status, write_retrying, write_dead,
}

module _ {S : Type 0} (env : Environment S) (retry : RetryConfig) where
  attempt_with_intro :
      (P : World S → Type 0) (faults : List (Option Text)) (f : World S → World S) (w : World S)
      → ((fs : List (Option Text)) → P (record w { faults = fs }))
      → ((fs : List (Option Text)) → P (f (record w { faults = fs })))
      → P (attempt_with env retry faults f w).1
  attempt_with_intro P [] f w refused done = done w.faults
  attempt_with_intro P (none ∷ faults) f w refused done = done faults
  attempt_with_intro P (some e ∷ faults) f w refused done = refused faults

  -- A call is carried out or refused, and a predicate may not look at the faults.
  pub attempt_intro :
      (P : World S → Type 0) (f : World S → World S) (w : World S)
      → ((fs : List (Option Text)) → P (record w { faults = fs }))
      → ((fs : List (Option Text)) → P (f (record w { faults = fs })))
      → P (attempt env retry f w).1
  unfolding attempt
  attempt_intro P f w refused done = attempt_with_intro P w.faults f w refused done

  pub attempt_with_then :
      (P : World S → Type 0) (faults : List (Option Text)) (f k : World S → World S) (w : World S)
      → ((fs : List (Option Text)) → P (record w { faults = fs }))
      → ((fs : List (Option Text)) → P (k (f (record w { faults = fs }))))
      → P (elim (attempt_with env retry faults f w).0 [
        | err _ ↦ (attempt_with env retry faults f w).1
        | ok _ ↦ k (attempt_with env retry faults f w).1
      ])
  attempt_with_then P [] f k w refused done = done w.faults
  attempt_with_then P (none ∷ faults) f k w refused done = done faults
  attempt_with_then P (some e ∷ faults) f k w refused done = refused faults

  outbox-write_dead :
      (d : DeadLetterEntry) (w : World S) → (write_dead env retry d w).outbox ≡ w.outbox
  outbox-write_dead d w = ground arith

  module _ (e : OutboxEntry) (R : OutboxEntry → Type 0) where
    -- What a predicate on rows has to stand for it to survive a turn for e.
    abbrev pub Stable : Type 0
    Stable =
        ((d : OutboxEntry) (now : ℤ) (s : OutboxStatus) (error : Option Text)
          → d.id ≡ e.id
          → status_beq s sent ≡ false
          → R d
          → R (set_status now s error d))
        × ((d : OutboxEntry) (now : ℤ) (n : ℕ) (at : ℤ) (error : Text)
            → d.id ≡ e.id
            → n < retry.max_retries
            → R d
            → R (set_retrying now n at error d))

    abbrev Holds : World S → Type 0
    Holds w = All R w.outbox

    rows_status :
        (w : World S) (now : ℤ) (s : OutboxStatus) (error : Option Text)
        → ((d : OutboxEntry) → d.id ≡ e.id → R d → R (set_status now s error d))
        → All R w.outbox
        → All R (mark_status now e.id s error w.outbox)
    rows_status w now s error keep h =
        All-update R R e.id (set_status now s error) keep (λ d ne r. r) w.outbox h

    on_sent_rows :
        (w : World S)
        → ((d : OutboxEntry) (now : ℤ) → d.id ≡ e.id → R d → R (set_status now sent none d))
        → All R w.outbox
        → All R (on_sent env retry e w).outbox
    unfolding on_sent
    on_sent_rows w accepted h =
        attempt_intro Holds (write_status env retry e sent none) w (λ fs. h)
          (λ fs. rows_status w (env.now_s w.outside) sent none (λ d. accepted d _) h)

    give_up_rows :
        (error : Text) (w : World S)
        → Stable
        → All R w.outbox
        → All R (give_up env retry e error w).outbox
    unfolding give_up
    give_up_rows error w stable h =
        let f = write_status env retry e dead_letter (some error) in
        let marked =
          attempt_intro Holds f w (λ fs. h)
            (λ fs.
              rows_status w (env.now_s w.outside) dead_letter (some error)
                (λ d i. stable.0 d _ _ _ i refl) h) in
        attempt_intro Holds (write_dead env retry _) (attempt env retry f w).1 (λ fs. marked)
          (λ fs. subst (All R) (sym (outbox-write_dead _ _)) marked)

    schedule_rows :
        (error : Text) (w : World S)
        → Stable
        → next_count e < retry.max_retries
        → All R w.outbox
        → All R (schedule env retry e error w).outbox
    unfolding schedule
    schedule_rows error w stable few h =
        attempt_intro Holds (write_retrying env retry e (next_count e) _ error) w (λ fs. h)
          (λ fs. All-update R R e.id _ (λ d i. stable.1 d _ _ _ _ i few) (λ d ne r. r) w.outbox h)

    on_failed_rows :
        (error : Text) (w : World S)
        → Stable
        → All R w.outbox
        → All R (on_failed env retry e error w).outbox
    unfolding on_failed
    on_failed_rows error w stable h =
        if_intro (World S) Holds (leb retry.max_retries (next_count e)) _ _
          (λ q. give_up_rows error w stable h) (λ q. schedule_rows error w stable (ground arith) h)

    answer_rows :
        (answer : Result Unit Text) (w : World S)
        → Stable
        → ((d : OutboxEntry) (now : ℤ)
            → d.id ≡ e.id
            → answer ≡ ok tt
            → R d
            → R (set_status now sent none d))
        → All R w.outbox
        → All R (on_answer env retry e answer w).outbox
    unfolding on_answer
    answer_rows (ok u) w stable accepted h = on_sent_rows w (λ d now i. accepted d now i refl) h
    answer_rows (err error) w stable accepted h = on_failed_rows error w stable h

    send_entry_rows :
        (w : World S)
        → Stable
        → ((d : OutboxEntry) (now : ℤ)
            → d.id ≡ e.id
            → (env.send e w.outside).0 ≡ ok tt
            → R d
            → R (set_status now sent none d))
        → All R w.outbox
        → All R (send_entry env retry e w).outbox
    unfolding send_entry
    send_entry_rows w stable accepted h =
        answer_rows (env.send e w.outside).0 (record w { outside = (env.send e w.outside).1 })
          stable accepted h

    -- Whatever the sender answers and whichever calls fail.
    pub process_entry_rows :
        (w : World S)
        → Stable
        → ((d : OutboxEntry) (now : ℤ)
            → d.id ≡ e.id
            → (env.send e w.outside).0 ≡ ok tt
            → R d
            → R (set_status now sent none d))
        → All R w.outbox
        → All R (process_entry env retry e w).outbox
    unfolding process_entry attempt
    process_entry_rows w stable accepted h =
        attempt_with_then Holds w.faults (write_status env retry e sending none)
          (send_entry env retry e) w (λ fs. h)
          (λ fs.
            send_entry_rows _ stable accepted
              (rows_status w (env.now_s w.outside) sending none (λ d i. stable.0 d _ _ _ i refl) h))
