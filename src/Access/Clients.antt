-- ===== src/Access/Clients.antt =====
-- src/adapters/api_client_registry.rs over the table `api_clients` of src/infrastructure/db.rs, the
-- list of its rows. `Codec` stands for the crates that the registry calls: SHA-256, base64 and
-- serde_json. The random token, the new id and the clock, in seconds, are arguments.
pub mod Rows
pub mod Tokens
pub mod Revocation
pub mod Examples
use magiclaw.Common.{
  ℕ, ◌≡◌, Bool, true, false, ◌&&◌, ◌||◌, Option, none, some, List, [], ◌∷◌, ◌++◌, if◌then◌else◌,
  ◌==◌, list_eq, nat_eq, any, is_empty,
}
use magiclaw.Common.Int.{ℤ, pos, ◌+ℤ◌, leb_ℤ}
use magiclaw.Common.Result.{Result, ok, err, ◌>>=◌, ◌>>◌}
use magiclaw.Common.Text.{Text, text, as_bytes, strip_prefix, trim}

pub record Codec : Type 0 where
  pub sha256 : List ℕ → List ℕ
  pub base64 : List ℕ → Text
  pub to_json : List Text → Result Text Text
  pub from_json : Text → Result (List Text) Text

-- What serde_json promises of lists of strings.
abbrev pub ReadsBack : Codec → Type 0
ReadsBack c =
    (scopes : List Text) (json : Text) → c.to_json scopes ≡ ok json → c.from_json json ≡ ok scopes

pub record ApiClientRecord : Type 0 where
  pub id : Text
  pub project_id : Text
  pub client_name : Text
  pub token_hash : Text
  pub scopes : List Text
  pub created_at : ℤ
  pub expires_at : ℤ
  pub revoked_at : Option ℤ
  pub rotated_from : Option Text

-- A row of the table, whose scopes are JSON.
pub record ClientRow : Type 0 where
  pub id : Text
  pub project_id : Text
  pub client_name : Text
  pub token_hash : Text
  pub scopes : Text
  pub created_at : ℤ
  pub expires_at : ℤ
  pub revoked_at : Option ℤ
  pub rotated_from : Option Text

pub data AuthFailure : Type 0 where
  unauthorized forbidden : AuthFailure

abbrev pub has_hash : Text → ClientRow → Bool
has_hash hash r = r.token_hash == hash

-- `INSERT`: the id is the primary key and the hash of the token is unique.
unfoldable pub insert : Text → ClientRow → List ClientRow → Result (List ClientRow) Text
insert conflict r rows =
    if any (λ s. s.id == r.id || has_hash r.token_hash s) rows
    then err conflict
    else ok (rows ++ r ∷ [])

-- `WHERE token_hash = ? LIMIT 1`.
unfoldable pub find : Text → List ClientRow → Option ClientRow
find hash [] = none
find hash (r ∷ rows) = if has_hash hash r then some r else find hash rows

abbrev pub set_revoked : ℤ → ClientRow → ClientRow
set_revoked now r = record r { revoked_at = some now }

-- `UPDATE api_clients SET revoked_at = ? WHERE token_hash = ?`.
unfoldable pub revoke_rows : Text → ℤ → List ClientRow → List ClientRow
revoke_rows hash now [] = []
revoke_rows hash now (r ∷ rows) =
    (if has_hash hash r then set_revoked now r else r) ∷ revoke_rows hash now rows

abbrev pub matches_scope : List Text → Text → Bool
matches_scope scopes required = any (λ s. s == required || s == text "*") scopes

-- `revoked_at.is_some()`.
abbrev pub is_revoked : Option ℤ → Bool
is_revoked none = false
is_revoked (some at) = true

module _ (c : Codec) where
  unfoldable pub hash_token : Text → Text
  hash_token raw_token = c.base64 (c.sha256 (as_bytes raw_token))

  unfoldable pub record_from_row : ClientRow → Result ApiClientRecord Text
  record_from_row r = do
    scopes ← c.from_json r.scopes
    ok (record {
      id = r.id;
      project_id = r.project_id;
      client_name = r.client_name;
      token_hash = r.token_hash;
      scopes = scopes;
      created_at = r.created_at;
      expires_at = r.expires_at;
      revoked_at = r.revoked_at;
      rotated_from = r.rotated_from;
    })

  -- The checks of the arguments.
  abbrev pub check_arguments : (project_id client_name : Text) → ℤ → Result Unit Text
  check_arguments project_id client_name ttl_secs =
      if is_empty (trim project_id)
      then err (text "project_id cannot be empty")
      else if is_empty (trim client_name)
      then err (text "client_name cannot be empty")
      else if leb_ℤ ttl_secs (pos 0)
      then err (text "ttl_secs must be positive")
      else ok tt

  -- The row that is written, the clock being read twice.
  unfoldable pub new_row :
      (project_id client_name : Text)
      → Text
      → ℤ
      → Option Text
      → (raw_token id : Text) → (now now' : ℤ) → ClientRow
  new_row project_id client_name scopes ttl_secs rotated_from raw_token id now now' = record {
    id = id;
    project_id = trim project_id;
    client_name = trim client_name;
    token_hash = hash_token raw_token;
    scopes = scopes;
    created_at = now;
    expires_at = now' +ℤ ttl_secs;
    revoked_at = none;
    rotated_from = rotated_from;
  }

  -- The table after it, and what is issued.
  unfoldable pub issue_token :
      (project_id client_name : Text)
      → List Text
      → ℤ
      → Option Text
      → (raw_token id : Text) → (now now' : ℤ) → Text
      → List ClientRow
      → Result (List ClientRow × Text) Text
  unfolding new_row insert
  issue_token project_id client_name scopes ttl rotated_from raw_token id now now' conflict rows =
      do
        _ ← check_arguments project_id client_name ttl
        json ← c.to_json scopes
        rows' ←
            insert conflict
              (new_row project_id client_name json ttl rotated_from raw_token id now now') rows
        ok (rows', raw_token)

  -- The table after it, and whether a row was written.
  unfoldable pub revoke_token : Text → ℤ → List ClientRow → List ClientRow × Bool
  unfolding revoke_rows hash_token
  revoke_token raw_token now rows =
      let hash = hash_token (trim raw_token) in
      (revoke_rows hash now rows, any (has_hash hash) rows)

  abbrev pub load_by_token_hash : Text → List ClientRow → Result (Option ApiClientRecord) Text
  load_by_token_hash hash rows = elim (find hash rows) [
    | none ↦ ok none
    | some r ↦ (elim (record_from_row r) [ err e ↦ err e | ok found ↦ ok (some found) ])
  ]

  -- From the loaded record on.
  abbrev pub authorize_record :
      Text → ℤ → Result (Option ApiClientRecord) Text → Result ApiClientRecord AuthFailure
  authorize_record required_scope now (err _) = err unauthorized
  authorize_record required_scope now (ok none) = err unauthorized
  authorize_record required_scope now (ok (some found)) =
      if is_revoked found.revoked_at || leb_ℤ found.expires_at now
      then err unauthorized
      else if matches_scope found.scopes required_scope
      then ok found
      else err forbidden

  abbrev pub authorize_token : Text → Text → ℤ → List ClientRow → Result ApiClientRecord AuthFailure
  authorize_token raw_token required_scope now rows =
      if is_empty raw_token
      then err unauthorized
      else authorize_record required_scope now (load_by_token_hash (hash_token raw_token) rows)

  unfoldable pub authorize_bearer :
      Option Text → Text → ℤ → List ClientRow → Result ApiClientRecord AuthFailure
  authorize_bearer none required_scope now rows = err unauthorized
  authorize_bearer (some header) required_scope now rows =
      elim (strip_prefix (text "Bearer ") header) [
        | none ↦ err unauthorized
        | some raw_token ↦ authorize_token (trim raw_token) required_scope now rows
      ]
