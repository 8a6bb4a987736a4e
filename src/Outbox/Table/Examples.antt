-- ===== src/Outbox/Table/Examples.antt =====
-- A dead letter goes back to an outbox that has no row for it.
use magiclaw.Common.{◌≡◌, ◌≢◌, refl, false, some, List, [], ◌∷◌, any}
use magiclaw.Common.Int.{pos}
use magiclaw.Common.Text.{Text, text}
use magiclaw.Outbox.Entry.{pending, OutboxEntry, DeadLetterEntry}
use magiclaw.Outbox.Table.{lookup, is_dead, lookup_dead, replay}
use magiclaw.Outbox.Table.Replay.{replay-pending}

abbrev letter : DeadLetterEntry
letter = record {
  id = text "m1";
  source = text "outbox";
  payload = text "hello";
  reason = text "max retries";
  created_at = pos 1000;
}

replay-pending_example :
    (rest : List OutboxEntry × List DeadLetterEntry × OutboxEntry) × (replay
        (text "m1")
        (pos 2000)
        []
        (letter ∷ [])
      ≡ some rest)
    × ((e : OutboxEntry) × (lookup (text "m1") rest.0 ≡ some e)
        × (e.status ≡ pending)
        × (e.retry_count ≡ 0)
        × (e.payload ≡ text "hello"))
    × (any (is_dead (text "m1")) rest.1 ≡ false)
    × ((other : Text) → other ≢ text "m1" → lookup other rest.0 ≡ lookup other [])
unfolding lookup_dead
replay-pending_example = replay-pending (text "m1") (pos 2000) [] (letter ∷ []) letter refl
