-- ===== src/Audit/Sink.antt =====
-- src/adapters/sqlite_audit.rs, and a write of src/application/audit.rs, over the table `audit_log` of src/infrastructure/db.rs. The table is
-- the list of its rows in the order of their ids, which SQLite hands out in rising order; a write
-- that the database refuses leaves it as it is. A read of the chain's head that fails is taken for an
-- empty table, and the row is written all the same.
mod Linked
pub mod Growth
mod Examples
use magiclaw.Common.{
  ℕ, suc, ◌+◌, ◌≡◌, refl, Bool, true, false, Option, none, some, List, [], ◌∷◌, ◌++◌, if◌then◌else◌,
}
use magiclaw.Common.Int.{ℤ, pos}
use magiclaw.Common.Result.{Result, ok, err, ◌>>=◌}
use magiclaw.Common.Text.{Text, text}
use magiclaw.Audit.Chain.{ChainRow, ChainError, head_mismatch, or_empty, compute_entry_hash, verify}

-- A row of `audit_log`: both hash columns may be NULL.
pub record AuditRow : Type 0 where
  pub id : ℤ
  pub route_key : Option Text
  pub action : Text
  pub result : Text
  pub created_at : ℤ
  pub prev_hash : Option Text
  pub entry_hash : Option Text

-- `SELECT entry_hash FROM audit_log ORDER BY id DESC LIMIT 1`, and `None` where there is no row.
unfoldable pub chain_head : List AuditRow → Option Text
chain_head [] = none
chain_head (r ∷ []) = r.entry_hash
chain_head (r ∷ s ∷ rows) = chain_head (s ∷ rows)

-- `.unwrap_or(None)`: a head that could not be read is `None`.
unfoldable pub read_head : (answered : Bool) → List AuditRow → Option Text
unfolding chain_head
read_head answered log = if answered then chain_head log else none

-- The decoding of a row as a `ChainRow`: a NULL `entry_hash` is a decoding error.
unfoldable pub load_row : Text → AuditRow → Result ChainRow Text
load_row null_error r = elim r.entry_hash [
  | none ↦ err null_error
  | some h ↦ ok (record {
    id = r.id;
    prev_hash = r.prev_hash;
    entry_hash = h;
    route_key = r.route_key;
    action = r.action;
    result = r.result;
    created_at = r.created_at;
  })
]

unfoldable pub load : Text → List AuditRow → Result (List ChainRow) Text
unfolding load_row
load null_error [] = ok []
load null_error (r ∷ rows) = do
  row ← load_row null_error r
  rest ← load null_error rows
  ok (row ∷ rest)

-- `write_audit` of src/application/audit.rs, which leaves the hash columns out of its INSERT.
unfoldable pub write_audit :
    Option Text → Text → Text → (id now : ℤ) → List AuditRow → List AuditRow
write_audit route_key action result id now log =
    log
    ++ record {
      id = id;
      route_key = route_key;
      action = action;
      result = result;
      created_at = now;
      prev_hash = none;
      entry_hash = none;
    }
      ∷ []

module _ (sha256 : List ℕ → List ℕ) where
  -- The row that `record` inserts after it has read a head, at the id and the time that the database
  -- gives.
  unfoldable pub new_row :
      Option Text → Text → Text → (id now : ℤ) → (head : Option Text) → AuditRow
  new_row route_key action result id now head = record {
    id = id;
    route_key = route_key;
    action = action;
    result = result;
    created_at = now;
    prev_hash = head;
    entry_hash =
        some (compute_entry_hash sha256 (or_empty head) (or_empty route_key) action result now);
  }

  -- `head_read` says whether the database answered the read of the head, and `written` whether it
  -- took the write; a failure of the write is only logged.
  unfoldable pub record_entry :
      Option Text
      → Text
      → Text
      → (id now : ℤ) → (head_read written : Bool) → List AuditRow
      → List AuditRow
  unfolding new_row read_head
  record_entry route_key action result id now head_read written log =
      if written
      then log ++ new_row route_key action result id now (read_head head_read log) ∷ []
      else log

  unfoldable pub verify_chain : Text → List AuditRow → Result (Option Text) ChainError
  verify_chain null_error log = elim (load null_error log) [
    | err e ↦ err (head_mismatch (pos 0) none (some e))
    | ok rows ↦ verify sha256 rows
  ]
