-- ===== src/Push/Run/Writes.antt =====
-- The rows that a run by src/application/push.rs writes into the outbox.
use magiclaw.Common.{
  ℕ, suc, ◌+◌, ◌≡◌, refl, ◌∙◌, Option, none, some, List, [], ◌∷◌, ◌++◌, arith, list_eq, nat_eq,
  length, length-append,
}
use magiclaw.Common.Int.{ℤ}
use magiclaw.Common.Result.{Result, ok, err}
use magiclaw.Common.Text.{Text, text}
use magiclaw.Database.{World, execute_intro, with_prefix, context_error, execute}
use magiclaw.Outbox.Entry.{OutboxEntry}
use magiclaw.Outbox.Entry as Entry
use magiclaw.Domain.Message.{text_content}
use magiclaw.Bindings.{DeliveryTarget}
use magiclaw.Push.{Store, Env}
use magiclaw.Push.Jobs.{put_entry, route_of, enqueue_outbox, enqueue_targets, tally}

-- How many rows a call wrote, by its answer.
abbrev pub rows_of : Result Unit Text → ℕ
rows_of (ok u) = 1
rows_of (err e) = 0

-- The outbox is longer by n rows, and nothing else of the store matters to a run has changed.
pub record Wrote (n : ℕ) (s t : Store) : Type 0 where
  pub longer : length t.outbox ≡ length s.outbox + n
  pub items_kept : t.items ≡ s.items

Wrote-refl : (s : Store) → Wrote 0 s s
Wrote-refl s = record { longer = omega arith; items_kept = refl }

Wrote-trans : (m n : ℕ) (s t u : Store) → Wrote m s t → Wrote n t u → Wrote (m + n) s u
Wrote-trans m n s t u h k = record {
  longer = omega (arith, h.longer, k.longer);
  items_kept = k.items_kept ∙ h.items_kept;
}

module _ (env : Env) where
  put_entry-Wrote : (e : OutboxEntry) (s t : Store) → put_entry env e s ≡ ok t → Wrote 1 s t
  put_entry-Wrote e s t h = record {
    longer = ground (arith, h, length-append s.outbox (e ∷ []));
    items_kept = ground (arith, h);
  }

  execute-Wrote :
      (prefix : Text) (e : OutboxEntry) (w : World Store)
      → Wrote
          (rows_of (with_prefix prefix (execute (put_entry env e)) w).0)
          w.state
          (with_prefix prefix (execute (put_entry env e)) w).1.state
  execute-Wrote prefix e w =
      execute_intro
        (λ r. Wrote (rows_of (context_error prefix r).0) w.state (context_error prefix r).1.state)
        (put_entry env e) w (λ fs x. Wrote-refl w.state) (λ fs t h. put_entry-Wrote e w.state t h)

  enqueue_outbox-Wrote :
      (ts : ℤ) (t : DeliveryTarget) (message : Text) (w : World Store)
      → Wrote
          (rows_of (enqueue_outbox env ts t message w).0)
          w.state
          (enqueue_outbox env ts t message w).1.state
  unfolding enqueue_outbox Entry.new
  enqueue_outbox-Wrote ts t message w =
      let entry =
        Entry.new (text "push" ++ text "-" ++ env.uuid w.state.issued)
          (env.route_json (route_of env t)) (env.content_json (text_content message)) ts in
      let h =
        execute-Wrote (text "enqueue outbox failed: ") entry
          (record w { state = record w.state { issued = suc w.state.issued } }) in
      record { longer = h.longer; items_kept = h.items_kept }

  tally-rows : (r : Result Unit Text) (acc : ℕ × Option Text) → (tally r acc).0 ≡ acc.0 + rows_of r
  tally-rows (ok u) (n, e) = refl
  tally-rows (err x) (n, none) = omega arith
  tally-rows (err x) (n, some e) = omega arith

  -- The loop over the targets always ends with a count, of the rows that it wrote.
  pub enqueue_targets-Wrote :
      (ts : ℤ) (message : Text) (targets : List DeliveryTarget) (acc : ℕ × Option Text)
      (w : World Store)
      → (n : ℕ) × (acc' : ℕ × Option Text) × (v : World Store) × (enqueue_targets env ts message
            targets acc w
          ≡ (ok acc', v))
        × (acc'.0 ≡ acc.0 + n)
        × Wrote n w.state v.state
  unfolding enqueue_targets
  enqueue_targets-Wrote ts message [] acc w = (0, acc, w, refl, omega arith, Wrote-refl w.state)
  enqueue_targets-Wrote ts message (t ∷ targets) acc w =
      let r = enqueue_outbox env ts t message w in
      let first = enqueue_outbox-Wrote ts t message w in
      let (n, acc', v, done, counted, rest) =
        enqueue_targets-Wrote ts message targets (tally r.0 acc) r.1 in
      (
        rows_of r.0 + n,
        acc',
        v,
        done,
        omega (arith, counted, tally-rows r.0 acc),
        Wrote-trans (rows_of r.0) n w.state r.1.state v.state first rest,
      )
