-- ===== src/Outbox/Table/Replay.antt =====
-- `replay` of src/adapters/sqlite_dead_letter.rs.
use magiclaw.Common.{
  ◌≡◌, ◌≢◌, refl, false, none, some, List, [], ◌∷◌, ◌++◌, arith, list_eq, nat_eq, any, Option-cases,
  inl, inr,
}
use magiclaw.Common.Int.{ℤ}
use magiclaw.Common.Text.{Text, text}
use magiclaw.Outbox.Entry
use magiclaw.Outbox.Entry.{OutboxStatus, pending, OutboxEntry, DeadLetterEntry}
use magiclaw.Outbox.Table.{lookup, update, is_dead, lookup_dead, delete_dead, replay, set_replayed}
use magiclaw.Outbox.Table.Rows.{has_id_iff, lookup-update, lookup-update_other}

any-delete_dead :
    (key : Text) (letters : List DeadLetterEntry)
    → any (is_dead key) (delete_dead key letters) ≡ false
unfolding delete_dead
any-delete_dead key [] = refl
any-delete_dead key (d ∷ letters) = ground (arith, any-delete_dead key letters)

lookup-append_new :
    (e : OutboxEntry) (rows : List OutboxEntry)
    → lookup e.id rows ≡ none
    → lookup e.id (rows ++ e ∷ []) ≡ some e
unfolding lookup
lookup-append_new e [] h = ground (arith, has_id_iff e.id e)
lookup-append_new e (d ∷ rows) h = ground (arith, lookup-append_new e rows)

lookup-append_other :
    (key : Text) (e : OutboxEntry) (rows : List OutboxEntry)
    → key ≢ e.id
    → lookup key (rows ++ e ∷ []) ≡ lookup key rows
unfolding lookup
lookup-append_other key e [] ne = ground (arith, has_id_iff key e)
lookup-append_other key e (d ∷ rows) ne = ground (arith, lookup-append_other key e rows)

-- After the replay of a dead letter the outbox has a pending row under its id, with its payload
-- and no failures counted; no dead letter has the id any more, and the other rows are as before.
pub replay-pending :
    (key : Text) (now : ℤ) (rows : List OutboxEntry) (letters : List DeadLetterEntry)
    (d : DeadLetterEntry)
    → lookup_dead key letters ≡ some d
    → (rest : List OutboxEntry × List DeadLetterEntry × OutboxEntry) × (replay key now rows letters
        ≡ some rest)
      × ((e : OutboxEntry) × (lookup key rest.0 ≡ some e)
          × (e.status ≡ pending)
          × (e.retry_count ≡ 0)
          × (e.payload ≡ d.payload))
      × (any (is_dead key) rest.1 ≡ false)
      × ((other : Text) → other ≢ key → lookup other rest.0 ≡ lookup other rows)
unfolding replay Entry.new
replay-pending key now rows letters d at = elim (Option-cases (lookup key rows)) [
  | inl missing ↦
      (let e = Entry.new key (text "replayed") d.payload now in
        (
          (rows ++ e ∷ [], delete_dead key letters, e),
          ground (arith, at, missing),
          (e, lookup-append_new e rows missing, refl, refl, refl),
          any-delete_dead key letters,
          λ other ne. lookup-append_other other e rows ne,
        ))
  | inr (e, found) ↦ (
    (
      update key (set_replayed d.payload now) rows,
      delete_dead key letters,
      Entry.new key e.route_key d.payload now,
    ),
    ground (arith, at, found),
    (
      set_replayed d.payload now e,
      lookup-update key (set_replayed d.payload now) rows (λ r. refl) e found,
      refl,
      refl,
      refl,
    ),
    any-delete_dead key letters,
    λ other ne. lookup-update_other key other (set_replayed d.payload now) rows (λ r. refl) ne,
  )
]
