-- ===== src/Outbox/Worker/Settled.antt =====
-- What a tick of the worker of src/application/outbox_worker.rs never does, whichever calls of the
-- database fail and whatever the sender answers.
use magiclaw.Common.{
  if_intro, ℕ, ◌≡◌, ◌≢◌, ◌<◌, refl, sym, ◌∙◌, subst, true, none, some, arith, leb, All, ◌⊎◌, inl,
  inr, ◌||◌,
}
use magiclaw.Common.Int.{◌+ℤ◌, u64_as_i64}
use magiclaw.Common.Result.{Result, ok, err}
use magiclaw.Common.Text.{Text, text}
use magiclaw.Outbox.Entry.{
  new_dead_letter, pending, sending, retrying, sent, dead_letter, status_beq, OutboxEntry,
  DeadLetterEntry,
}
use magiclaw.Outbox.Backoff.{RetryConfig, next_delay_ms}
use magiclaw.Outbox.Worker.{
  World, Environment, attempt, process_entry, send_entry, on_answer, on_sent, on_failed,
  counted_message, give_up, schedule, tick, next_count, write_status, write_dead, write_retrying,
}
use magiclaw.Outbox.Worker.Invariant.{attempt_intro, attempt_with_then, process_entry_rows}
use magiclaw.Outbox.Worker.Loops.{tick_keeps}

-- A row that a query finds is neither `sent` nor dead.
found_unsettled :
    (e r : OutboxEntry)
    → (status_beq e.status pending ≡ true) ⊎ (status_beq e.status retrying ≡ true)
    → e ≡ r
    → (status_beq r.status sent || status_beq r.status dead_letter) ≡ true
    → ⊥
found_unsettled e r found same settled = ground (arith, found, same, settled)

module _ {S : Type 0} (env : Environment S) (retry : RetryConfig) where
  -- If no row's count of failures has reached the maximum before a tick, none has after it: neither
  -- the attempts of the tick, nor its restarts of retrying rows, nor calls of the database that fail
  -- take a count to the maximum.
  pub tick-within_budget :
      (batch_size : ℕ) (w : World S)
      → All (λ e. e.retry_count < retry.max_retries) w.outbox
      → All (λ e. e.retry_count < retry.max_retries) (tick env retry batch_size w).outbox
  tick-within_budget n w h =
      tick_keeps env retry (λ v. All (λ e. e.retry_count < retry.max_retries) v.outbox)
        (λ e. e.retry_count < retry.max_retries) (λ v p. p)
        (λ e v q p.
          process_entry_rows env retry e (λ d. d.retry_count < retry.max_retries) v
            (λ d now s error i b r. r, λ d now m at error i few r. few) (λ d now i a r. r) p)
        (λ v fs p. p) n w h

  -- While the sender accepts nothing under an id, no row of that id becomes `sent`.
  pub tick-unsent :
      (key : Text)
      → ((e : OutboxEntry) (s : S) → e.id ≡ key → (env.send e s).0 ≢ ok tt)
      → (batch_size : ℕ) (w : World S) → All (λ e. e.id ≡ key → e.status ≢ sent) w.outbox
      → All (λ e. e.id ≡ key → e.status ≢ sent) (tick env retry batch_size w).outbox
  tick-unsent key refuses n w h =
      tick_keeps env retry (λ v. All (λ e. e.id ≡ key → e.status ≢ sent) v.outbox)
        (λ e. e.id ≡ key → e.status ≢ sent) (λ v p. p)
        (λ e v q p.
          process_entry_rows env retry e (λ d. d.id ≡ key → d.status ≢ sent) v
            (λ d now s error i b r k same. ground (arith), λ d now m at error i few r k same. cc)
            (λ d now i a r k. absurd (refuses e v.outside (sym i ∙ k) a)) p)
        (λ v fs p. p) n w h

  outside-write_dead :
      (d : DeadLetterEntry) (w : World S) → (write_dead env retry d w).outside ≡ w.outside
  outside-write_dead d w = ground arith

  outside-attempt :
      (f : World S → World S) (w : World S)
      → ((v : World S) → (f v).outside ≡ v.outside)
      → (attempt env retry f w).1.outside ≡ w.outside
  outside-attempt f w keep =
      attempt_intro env retry (λ v. v.outside ≡ w.outside) f w (λ fs. refl)
        (λ fs. keep (record w { faults = fs }))

  outside-on_failed :
      (e : OutboxEntry) (error : Text) (w : World S)
      → (on_failed env retry e error w).outside ≡ w.outside
  unfolding on_failed give_up schedule
  outside-on_failed e error w =
      let f = write_status env retry e dead_letter (some error) in
      let letter =
        new_dead_letter e.id (text "outbox") e.payload
          (counted_message (text "max retries") (next_count e) error) (env.now_s w.outside) in
      let next_at = env.now_ms w.outside +ℤ u64_as_i64 (next_delay_ms retry (next_count e)) in
      if_intro (World S) (λ v. v.outside ≡ w.outside) (leb retry.max_retries (next_count e)) _ _
        (λ q.
          outside-attempt (write_dead env retry letter) (attempt env retry f w).1
            (outside-write_dead letter)
          ∙ outside-attempt f w (λ v. refl))
        (λ q.
          outside-attempt (write_retrying env retry e (next_count e) next_at error) w (λ v. refl))

  outside-on_answer :
      (e : OutboxEntry) (answer : Result Unit Text) (w : World S)
      → (on_answer env retry e answer w).outside ≡ w.outside
  unfolding on_answer on_sent
  outside-on_answer e (ok u) w = outside-attempt (write_status env retry e sent none) w (λ v. refl)
  outside-on_answer e (err error) w = outside-on_failed e error w

  -- A turn leaves the outside alone or hands the entry to the sender once.
  outside-process_entry :
      (e : OutboxEntry) (w : World S)
      → ((process_entry env retry e w).outside ≡ w.outside)
        ⊎ ((process_entry env retry e w).outside ≡ (env.send e w.outside).1)
  unfolding process_entry attempt send_entry
  outside-process_entry e w =
      attempt_with_then env retry
        (λ v. (v.outside ≡ w.outside) ⊎ (v.outside ≡ (env.send e w.outside).1)) w.faults
        (write_status env retry e sending none) (send_entry env retry e) w (λ fs. inl refl)
        (λ fs. inr (outside-on_answer e (env.send e w.outside).0 _))

  process_entry-Out :
      (O : S → Type 0) (e : OutboxEntry) (w : World S)
      → O w.outside
      → O (env.send e w.outside).1
      → O (process_entry env retry e w).outside
  process_entry-Out O e w o after = elim (outside-process_entry e w) [
    | inl same ↦ subst O (sym same) o
    | inr called ↦ subst O (sym called) after
  ]

  settled_turn :
      (key : Text) (r : OutboxEntry) (O : S → Type 0)
      → ((e : OutboxEntry) (s : S) → e.id ≢ key → O s → O (env.send e s).1)
      → (e : OutboxEntry) (w : World S) → e.id ≢ key
      → All (λ d. d.id ≡ key → d ≡ r) w.outbox × O w.outside
      → All (λ d. d.id ≡ key → d ≡ r) (process_entry env retry e w).outbox
        × O (process_entry env retry e w).outside
  settled_turn key r O others e w other p = (
    process_entry_rows env retry e (λ d. d.id ≡ key → d ≡ r) w
        (
          λ d now s error i b k same. absurd (other (sym i ∙ same)),
          λ d now m at error i few k same. absurd (other (sym i ∙ same)),
        )
        (λ d now i a k same. absurd (other (sym i ∙ same))) p.0,
    process_entry-Out O e w p.1 (others e w.outside other p.1),
  )

  -- Where all rows of an id are one row that is `sent` or dead, as the primary key has it, a tick
  -- does not write that row, and the sender is not called for the id: what the sender's calls for
  -- other ids keep of the outside holds afterwards.
  pub tick-settled :
      (key : Text) (r : OutboxEntry) (O : S → Type 0)
      → (status_beq r.status sent || status_beq r.status dead_letter) ≡ true
      → ((e : OutboxEntry) (s : S) → e.id ≢ key → O s → O (env.send e s).1)
      → (batch_size : ℕ) (w : World S) → All (λ e. e.id ≡ key → e ≡ r) w.outbox
      → O w.outside
      → All (λ e. e.id ≡ key → e ≡ r) (tick env retry batch_size w).outbox
        × O (tick env retry batch_size w).outside
  tick-settled key r O settled others n w h o =
      tick_keeps env retry (λ v. All (λ e. e.id ≡ key → e ≡ r) v.outbox × O v.outside)
        (λ e. e.id ≡ key → e ≡ r) (λ v p. p.0)
        (λ e v q p.
          settled_turn key r O others e v (λ same. found_unsettled e r q.1 (q.0 same) settled) p)
        (λ v fs p. p) n w (h, o)
