-- ===== src/Access/Clients/Rows.antt =====
-- The statements of src/adapters/api_client_registry.rs.
use magiclaw.Common.{
  ℕ, ◌≡◌, ◌≢◌, refl, true, false, ◌||◌, some, List, [], ◌∷◌, ◌++◌, arith, list_eq, nat_eq, any,
  ◌==◌, inl, inr, Bool-cases,
}
use magiclaw.Common.Int.{ℤ}
use magiclaw.Common.Result.{ok}
use magiclaw.Common.Text.{Text}
use magiclaw.Access.Clients.{ClientRow, has_hash, insert, find, revoke_rows, set_revoked}

find-append_new :
    (r : ClientRow) (rows : List ClientRow)
    → any (λ s. s.id == r.id || has_hash r.token_hash s) rows ≡ false
    → find r.token_hash (rows ++ r ∷ []) ≡ some r
unfolding find
find-append_new r [] h = ground (arith, (list_eq {A = ℕ}).eq_iff r.token_hash r.token_hash)
find-append_new r (s ∷ rows) h = ground (arith, find-append_new r rows)

pub find-insert :
    (conflict : Text) (r : ClientRow) (rows rows' : List ClientRow)
    → insert conflict r rows ≡ ok rows'
    → find r.token_hash rows' ≡ some r
unfolding insert
find-insert conflict r rows rows' h = ground (arith, h, find-append_new r rows)

find-append_found :
    (hash : Text) (s r : ClientRow) (rows : List ClientRow)
    → find hash rows ≡ some s
    → find hash (rows ++ r ∷ []) ≡ some s
unfolding find
find-append_found hash s r [] h = absurd (ground arith)
find-append_found hash s r (t ∷ rows) h = ground (arith, h, find-append_found hash s r rows)

-- An insertion does not hide a row that is there.
pub find-insert_found :
    (hash conflict : Text) (s r : ClientRow) (rows rows' : List ClientRow)
    → find hash rows ≡ some s
    → insert conflict r rows ≡ ok rows'
    → find hash rows' ≡ some s
unfolding insert
find-insert_found hash conflict s r rows rows' found h =
    ground (arith, h, find-append_found hash s r rows found)

-- A revocation marks the row that it finds.
pub find-revoke_rows :
    (hash : Text) (now : ℤ) (s : ClientRow) (rows : List ClientRow)
    → find hash rows ≡ some s
    → find hash (revoke_rows hash now rows) ≡ some (set_revoked now s)
unfolding find revoke_rows
find-revoke_rows hash now s [] h = absurd (ground arith)
find-revoke_rows hash now s (t ∷ rows) h = ground (arith, h, find-revoke_rows hash now s rows)

pub find-revoke_other :
    (hash other : Text) (now : ℤ) (rows : List ClientRow)
    → hash ≢ other
    → find other (revoke_rows hash now rows) ≡ find other rows
unfolding find revoke_rows
find-revoke_other hash other now [] ne = refl
find-revoke_other hash other now (t ∷ rows) ne = ground (
  arith,
  ne,
  (list_eq {A = ℕ}).eq_iff t.token_hash hash,
  (list_eq {A = ℕ}).eq_iff t.token_hash other,
  find-revoke_other hash other now rows ne,
)

-- A row that the test of the update counts is a row that the query finds.
pub find_of_any :
    (hash : Text) (rows : List ClientRow)
    → any (has_hash hash) rows ≡ true
    → (r : ClientRow) × (find hash rows ≡ some r)
unfolding find
find_of_any hash [] h = absurd (ground arith)
find_of_any hash (s ∷ rows) h = elim (Bool-cases (has_hash hash s)) [
  | inl here ↦ (s, ground arith)
  | inr elsewhere ↦
      (let (r, found) = find_of_any hash rows (ground arith) in (r, ground (arith, found)))
]
