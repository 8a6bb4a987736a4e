-- ===== src/Inbox/Processor/Once.antt =====
-- A message that has a row is never processed again by src/application/inbox_processor.rs.
use magiclaw.Common.{
  ℕ, zero, suc, ◌≡◌, ◌⊎◌, inl, inr, refl, ◌∙◌, Bool, true, false, Option, none, some, List, [], ◌∷◌,
  ◌++◌, arith, if◌then◌else◌, list_eq, nat_eq, any, All, Bool-cases,
}
use magiclaw.Common.Int.{ℤ}
use magiclaw.Common.Result.{Result, ok, err}
use magiclaw.Common.Text.{Text}
use magiclaw.Domain.Message.{Message}
use magiclaw.Inbox.Processor.{
  InboxStatus, processed, processing, InboxEntry, has_id, contains, insert, mark_status, InboxWorld,
  InboxResult, done, duplicate, call, call_with, store, process_inbound, new,
}

any-append_entry :
    (e : InboxEntry) (rows : List InboxEntry) → any (has_id e.id) (rows ++ e ∷ []) ≡ true
any-append_entry e [] = ground (arith, (list_eq {A = ℕ}).eq_iff e.id e.id)
any-append_entry e (d ∷ rows) = ground (arith, any-append_entry e rows)

contains-insert : (e : InboxEntry) (rows : List InboxEntry) → contains e.id (insert e rows) ≡ true
unfolding contains insert
contains-insert e rows = elim (Bool-cases (any (has_id e.id) rows)) [
  | inl old ↦ ground (arith, old)
  | inr fresh ↦ ground (arith, fresh, any-append_entry e rows)
]

pub contains-mark_status :
    (now : ℤ) (key id : Text) (s : InboxStatus) (rows : List InboxEntry)
    → contains id (mark_status now key s rows) ≡ contains id rows
unfolding contains mark_status
contains-mark_status now key id s [] = refl
contains-mark_status now key id s (e ∷ rows) =
    ground (arith, contains-mark_status now key id s rows)

-- Every row under the key has the status.
abbrev pub Marked : Text → InboxStatus → InboxEntry → Type 0
Marked key s e = e.id ≡ key → e.status ≡ s

mark_status-Marked :
    (now : ℤ) (key : Text) (s : InboxStatus) (rows : List InboxEntry)
    → All (Marked key s) (mark_status now key s rows)
unfolding mark_status
mark_status-Marked now key s [] = tt
mark_status-Marked now key s (e ∷ rows) = (
  (λ same. ground (arith, (list_eq {A = ℕ}).eq_iff e.id key, same)),
  mark_status-Marked now key s rows,
)

-- What the n-th of the next calls of the database has in store.
unfoldable pub fault : ℕ → List (Option Text) → Option Text
fault n [] = none
fault zero (f ∷ faults) = f
fault (suc n) (f ∷ faults) = fault n faults

-- The answer to a new message and the rows after it, by what the calls at `n` and after have in
-- store: the insertion, and the two changes of the status.
abbrev pub Stored : Text → ℕ → InboxWorld → Result InboxResult Text × InboxWorld → Type 0
Stored key n w (answer, w') =
    ((e : Text) × (fault n w.faults ≡ some e) × (answer ≡ err e) × (w'.rows ≡ w.rows))
    ⊎ ((fault n w.faults ≡ none)
        × (contains key w'.rows ≡ true)
        × (((e : Text) × ((fault (suc n) w.faults ≡ some e)
                ⊎ ((fault (suc n) w.faults ≡ none) × (fault (suc (suc n)) w.faults ≡ some e)))
              × (answer ≡ err e))
            ⊎ ((fault (suc n) w.faults ≡ none)
                × (fault (suc (suc n)) w.faults ≡ none)
                × (answer ≡ ok done)
                × All (Marked key processed) w'.rows)))

-- The answer to a message and the rows after it, by the rows before it and the faults.
abbrev pub Outcome : Text → InboxWorld → Result InboxResult Text × InboxWorld → Type 0
Outcome key w r =
    ((e : Text) × (fault 0 w.faults ≡ some e) × (r.0 ≡ err e) × (r.1.rows ≡ w.rows))
    ⊎ ((fault 0 w.faults ≡ none)
        × (((contains key w.rows ≡ true) × (r.0 ≡ ok duplicate) × (r.1.rows ≡ w.rows))
            ⊎ ((contains key w.rows ≡ false) × Stored key 1 w r)))

pub call_intro :
    (P : Result InboxResult Text × InboxWorld → Type 0) (f : List InboxEntry → List InboxEntry)
    (rest : InboxWorld → Result InboxResult Text × InboxWorld) (w : InboxWorld)
    → ((e : Text) (fs : List (Option Text)) → P (err e, record { rows = w.rows; faults = fs }))
    → ((fs : List (Option Text)) → P (rest (record { rows = f w.rows; faults = fs })))
    → P (call f rest w)
unfolding call
call_intro P f rest w refused carried = go w.faults
  where
    go : (fs : List (Option Text)) → P (call_with fs f rest w.rows)
    go [] = carried []
    go (none ∷ fs) = carried fs
    go (some e ∷ fs) = refused e fs

-- A call, with what it has in store, and the faults that are left.
pub call_told :
    (P : Result InboxResult Text × InboxWorld → Type 0) (f : List InboxEntry → List InboxEntry)
    (rest : InboxWorld → Result InboxResult Text × InboxWorld) (w : InboxWorld)
    → ((e : Text) (fs : List (Option Text))
        → fault 0 w.faults ≡ some e
        → P (err e, record { rows = w.rows; faults = fs }))
    → ((fs : List (Option Text))
        → fault 0 w.faults ≡ none
        → ((n : ℕ) → fault (suc n) w.faults ≡ fault n fs)
        → P (rest (record { rows = f w.rows; faults = fs })))
    → P (call f rest w)
unfolding call fault
call_told P f rest w refused carried = go w.faults refused carried
  where
    go :
        (gs : List (Option Text))
        → ((e : Text) (fs : List (Option Text))
            → fault 0 gs ≡ some e
            → P (err e, record { rows = w.rows; faults = fs }))
        → ((fs : List (Option Text))
            → fault 0 gs ≡ none
            → ((n : ℕ) → fault (suc n) gs ≡ fault n fs)
            → P (rest (record { rows = f w.rows; faults = fs })))
        → P (call_with gs f rest w.rows)
    go [] refused carried = carried [] refl (λ n. refl)
    go (none ∷ fs) refused carried = carried fs refl (λ n. refl)
    go (some e ∷ fs) refused carried = refused e fs refl

contains-first :
    (now : ℤ) (msg : Message) (payload : Text) (rows : List InboxEntry)
    → contains msg.id (
        insert
          (new msg.id msg.route_key.channel.as_str msg.route_key.conversation_id payload now)
          rows)
      ≡ true
unfolding new
contains-first now msg payload rows = contains-insert _ rows

store_lem :
    (now : ℤ) (msg : Message) (payload : Text) (w : InboxWorld) (fs : List (Option Text))
    → ((n : ℕ) → fault (suc n) w.faults ≡ fault n fs)
    → Stored msg.id 1 w (store now msg payload (record { rows = w.rows; faults = fs }))
unfolding store
store_lem now msg payload w fs next =
    let P = Stored msg.id 1 w in
    let e = new msg.id msg.route_key.channel.as_str msg.route_key.conversation_id payload now in
    let r₁ = insert e w.rows in
    let h₁ = contains-first now msg payload w.rows in
    let r₂ = mark_status now msg.id processing r₁ in
    let h₂ = contains-mark_status now msg.id msg.id processing r₁ ∙ h₁ in
    let h₃ = contains-mark_status now msg.id msg.id processed r₂ ∙ h₂ in
    call_told P (insert e) _ (record { rows = w.rows; faults = fs })
      (λ x gs f. inl (x, next 0 ∙ f, refl, refl))
      (λ gs f₁ n₁.
        call_told P (mark_status now msg.id processing) _ (record { rows = r₁; faults = gs })
          (λ x hs f. inr (next 0 ∙ f₁, h₁, inl (x, inl (next 1 ∙ n₁ 0 ∙ f), refl)))
          (λ hs f₂ n₂.
            call_told P (mark_status now msg.id processed) _ (record { rows = r₂; faults = hs })
              (λ x is f. inr (
                next 0 ∙ f₁,
                h₂,
                inl (x, inr (next 1 ∙ n₁ 0 ∙ f₂, next 2 ∙ n₁ 1 ∙ n₂ 0 ∙ f), refl),
              ))
              (λ is f₃ n₃. inr (
                next 0 ∙ f₁,
                h₃,
                inr (
                  next 1 ∙ n₁ 0 ∙ f₂,
                  next 2 ∙ n₁ 1 ∙ n₂ 0 ∙ f₃,
                  refl,
                  mark_status-Marked now msg.id processed r₂,
                ),
              ))))

-- Where the lookup fails, its error is answered and no row changes. A message whose id has a row is
-- answered as a duplicate, whatever its payload and its row's state, and no row changes. A new
-- message is answered by the error of the first call that fails: if that is the insertion, no row
-- changes; if it is a change of the status, the message has a row, and is a duplicate from then on
-- although it was not processed. If no call fails, a new message is answered as done, it has a row,
-- and every row under its id is processed.
pub process_inbound-once :
    (now : ℤ) (msg : Message) (payload : Text) (w : InboxWorld)
    → Outcome msg.id w (process_inbound now msg payload w)
unfolding process_inbound
process_inbound-once now msg payload w =
    call_told (Outcome msg.id w) (λ rows. rows) _ w (λ e fs f. inl (e, f, refl, refl))
      (λ fs f next. looked (contains msg.id w.rows) refl fs f next)
  where
    looked :
        (b : Bool)
        → contains msg.id w.rows ≡ b
        → (fs : List (Option Text)) → fault 0 w.faults ≡ none
        → ((n : ℕ) → fault (suc n) w.faults ≡ fault n fs)
        → Outcome msg.id w (
            if b
            then (ok duplicate, record { rows = w.rows; faults = fs })
            else store now msg payload (record { rows = w.rows; faults = fs }))
    looked true seen fs f next = inr (f, inl (seen, refl, refl))
    looked false fresh fs f next = inr (f, inr (fresh, store_lem now msg payload w fs next))

-- A message that is answered as done had no row, and has one.
pub Outcome-done :
    (key : Text) (w w' : InboxWorld)
    → Outcome key w (ok done, w')
    → (contains key w.rows ≡ false) × (contains key w'.rows ≡ true)
Outcome-done key w w' (inl (e, f, answer, same)) = absurd (cc answer)
Outcome-done key w w' (inr (f, inl (seen, answer, same))) = absurd (cc answer)
Outcome-done key w w' (inr (f, inr (fresh, inl (e, g, answer, same)))) = absurd (cc answer)
Outcome-done key w w' (inr (f, inr (fresh, inr (g, has, failed_or_done)))) = (fresh, has)
