-- ===== src/Inbox/Processor/Kept.antt =====
-- The rows of src/adapters/sqlite_inbox.rs are never removed.
use magiclaw.Common.{
  ◌≡◌, true, ◌∷◌, ◌++◌, [], List, ◌∙◌, arith, any, if_intro, Bool-cases, inl, inr,
}
use magiclaw.Common.Int.{ℤ}
use magiclaw.Common.Result.{Result}
use magiclaw.Common.Text.{Text}
use magiclaw.Domain.Message.{Message}
use magiclaw.Inbox.Processor.{
  InboxEntry, InboxWorld, InboxResult, has_id, contains, insert, mark_status, process_inbound,
  store, new, processing, processed,
}
use magiclaw.Inbox.Processor.Once.{call_intro, contains-mark_status}

any-append_kept :
    (id : Text) (rows : List InboxEntry) (e : InboxEntry)
    → any (has_id id) rows ≡ true
    → any (has_id id) (rows ++ e ∷ []) ≡ true
any-append_kept id [] e h = absurd (ground (arith, h))
any-append_kept id (d ∷ rows) e h = ground (arith, h, any-append_kept id rows e)

contains-insert_kept :
    (id : Text) (rows : List InboxEntry) (e : InboxEntry)
    → contains id rows ≡ true
    → contains id (insert e rows) ≡ true
unfolding contains insert
contains-insert_kept id rows e h = elim (Bool-cases (any (has_id e.id) rows)) [
  | inl old ↦ ground (arith, old, h)
  | inr fresh ↦ ground (arith, fresh, any-append_kept id rows e h)
]

abbrev Keeps : Text → Result InboxResult Text × InboxWorld → Type 0
Keeps id r = contains id r.1.rows ≡ true

pub contains-process_inbound :
    (id : Text) (now : ℤ) (msg : Message) (payload : Text) (w : InboxWorld)
    → contains id w.rows ≡ true
    → contains id (process_inbound now msg payload w).1.rows ≡ true
unfolding process_inbound store
contains-process_inbound id now msg payload w h =
    let e = new msg.id msg.route_key.channel.as_str msg.route_key.conversation_id payload now in
    let r₁ = insert e w.rows in
    let h₁ = contains-insert_kept id w.rows e h in
    let r₂ = mark_status now msg.id processing r₁ in
    let h₂ = contains-mark_status now msg.id id processing r₁ ∙ h₁ in
    let h₃ = contains-mark_status now msg.id id processed r₂ ∙ h₂ in
    let P = Keeps id in
    call_intro P (λ rows. rows) _ w (λ x fs. h)
      (λ fs.
        if_intro (Result InboxResult Text × InboxWorld) P (contains msg.id w.rows) _ _ (λ seen. h)
          (λ fresh.
            call_intro P (insert e) _ (record { rows = w.rows; faults = fs }) (λ x gs. h)
              (λ gs.
                call_intro P (mark_status now msg.id processing) _
                  (record { rows = r₁; faults = gs }) (λ x hs. h₁)
                  (λ hs.
                    call_intro P (mark_status now msg.id processed) _
                      (record { rows = r₂; faults = hs }) (λ x is. h₂) (λ is. h₃)))))
