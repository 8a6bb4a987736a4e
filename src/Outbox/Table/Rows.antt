-- ===== src/Outbox/Table/Rows.antt =====
-- What an update leaves under each id.
use magiclaw.Common.{
  ℕ, ◌≡◌, ◌≢◌, ◌↔◌, refl, true, some, List, [], ◌∷◌, ◌++◌, arith, list_eq, nat_eq, any,
}
use magiclaw.Common.Text.{Text}
use magiclaw.Outbox.Entry.{OutboxEntry, DeadLetterEntry}
use magiclaw.Outbox.Table.{has_id, lookup, update, is_dead}

pub has_id_iff : (key : Text) (e : OutboxEntry) → (has_id key e ≡ true) ↔ (e.id ≡ key)
has_id_iff key e = (list_eq {A = ℕ}).eq_iff e.id key

-- A row that the statement touches keeps its id.
pub lookup-update :
    (key : Text) (f : OutboxEntry → OutboxEntry) (rows : List OutboxEntry)
    → ((e : OutboxEntry) → (f e).id ≡ e.id)
    → (e : OutboxEntry) → lookup key rows ≡ some e
    → lookup key (update key f rows) ≡ some (f e)
unfolding lookup update
lookup-update key f [] same e h = cc
lookup-update key f (d ∷ rows) same e h =
    ground (arith, same d, has_id_iff key d, has_id_iff key (f d), lookup-update key f rows same e)

pub lookup-update_other :
    (key other : Text) (f : OutboxEntry → OutboxEntry) (rows : List OutboxEntry)
    → ((e : OutboxEntry) → (f e).id ≡ e.id)
    → other ≢ key
    → lookup other (update key f rows) ≡ lookup other rows
unfolding lookup update
lookup-update_other key other f [] same ne = refl
lookup-update_other key other f (d ∷ rows) same ne = ground (
  arith,
  same d,
  has_id_iff key d,
  has_id_iff other d,
  has_id_iff other (f d),
  lookup-update_other key other f rows same ne,
)

pub any-append_self :
    (d : DeadLetterEntry) (letters : List DeadLetterEntry)
    → any (is_dead d.id) (letters ++ d ∷ []) ≡ true
any-append_self d [] = ground (arith, (list_eq {A = ℕ}).eq_iff d.id d.id)
any-append_self d (c ∷ letters) = ground (arith, any-append_self d letters)

pub any-append_left :
    (key : Text) (letters : List DeadLetterEntry) (d : DeadLetterEntry)
    → any (is_dead key) letters ≡ true
    → any (is_dead key) (letters ++ d ∷ []) ≡ true
any-append_left key [] d h = absurd (ground arith)
any-append_left key (c ∷ letters) d h = ground (arith, any-append_left key letters d)
