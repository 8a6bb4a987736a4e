-- ===== src/Access/Clients/Revocation.antt =====
-- A revoked token of src/adapters/api_client_registry.rs stays revoked.
use magiclaw.Common.{
  ℕ, ◌≡◌, ◌≢◌, refl, sym, subst, ◌∙◌, true, Option, some, List, ◌++◌, arith, list_eq, nat_eq, ◌==◌,
  inl, inr, Bool-cases,
}
use magiclaw.Common.Int.{ℤ}
use magiclaw.Common.Result.{ok, bind_ok}
use magiclaw.Common.Text.{Text, text, trim}
use magiclaw.Access.Clients.{
  Codec, ClientRow, ApiClientRecord, find, is_revoked, hash_token, record_from_row,
  authorize_bearer, issue_token, revoke_token, new_row, check_arguments, insert, set_revoked,
  revoke_rows,
}
use magiclaw.Access.Clients.Rows.{
  find-insert_found, find-revoke_rows, find-revoke_other, find_of_any,
}
use magiclaw.Access.Clients.Tokens.{authorize_bearer_sound}

module _ (c : Codec) where
  -- What happens to the table: tokens are issued, which may fail, and revoked.
  pub data Change : List ClientRow → List ClientRow → Type 0 where
    issuing :
        (project_id client_name : Text) (scopes : List Text) (ttl : ℤ) (rotated_from : Option Text)
        (raw id : Text) (now now' : ℤ) (conflict : Text) {rows rows' : List ClientRow}
        {token : Text}
        → issue_token c project_id client_name scopes ttl rotated_from raw id now now' conflict rows
          ≡ ok (rows', token)
        → Change rows rows'
    revoking :
        (raw : Text) (now : ℤ) {rows : List ClientRow} → Change rows (revoke_token c raw now rows).0

  pub data Changes : List ClientRow → List ClientRow → Type 0 where
    unchanged : {rows : List ClientRow} → Changes rows rows
    changed :
        {rows rows' rows'' : List ClientRow}
        → Change rows rows'
        → Changes rows' rows''
        → Changes rows rows''

  -- The row under a hash is there and revoked.
  IsRevoked : Text → List ClientRow → Type 0
  IsRevoked hash rows =
      (r : ClientRow) × (find hash rows ≡ some r) × (is_revoked r.revoked_at ≡ true)

  find-issue :
      (hash : Text) (s : ClientRow) (project_id client_name : Text) (scopes : List Text) (ttl : ℤ)
      (rotated_from : Option Text) (raw id : Text) (now now' : ℤ) (conflict : Text)
      (rows rows' : List ClientRow) (token : Text)
      → issue_token c project_id client_name scopes ttl rotated_from raw id now now' conflict rows
        ≡ ok (rows', token)
      → find hash rows ≡ some s
      → find hash rows' ≡ some s
  unfolding issue_token
  find-issue hash s project client scopes ttl from raw id now now' conflict rows rows' token h
        found =
      let (u, checked, rest) = bind_ok (check_arguments c project client ttl) _ (rows', token) h in
      let (json, written, rest') = bind_ok (c.to_json scopes) _ (rows', token) rest in
      let row = new_row c project client json ttl from raw id now now' in
      let (rows₁, inserted, done) = bind_ok (insert conflict row rows) _ (rows', token) rest' in
      let same : rows₁ ≡ rows' = ground (arith, done) in
      subst (λ t. find hash t ≡ some s) same
        (find-insert_found hash conflict s row rows rows₁ found inserted)

  revoke_token-IsRevoked :
      (hash raw : Text) (now : ℤ) (rows : List ClientRow)
      → IsRevoked hash rows
      → IsRevoked hash (revoke_token c raw now rows).0
  unfolding IsRevoked revoke_token
  revoke_token-IsRevoked hash raw now rows (r, found, revoked) =
      elim (Bool-cases (hash_token c (trim raw) == hash)) [
        | inl same ↦ (
          set_revoked now r,
          subst (λ t. find hash (revoke_rows t now rows) ≡ some (set_revoked now r))
              (sym (((list_eq {A = ℕ}).eq_iff (hash_token c (trim raw)) hash).0 same))
              (find-revoke_rows hash now r rows found),
          refl,
        )
        | inr other ↦ (
          r,
          find-revoke_other (hash_token c (trim raw)) hash now rows (λ e.
                ground (arith, other, (list_eq {A = ℕ}).eq_iff (hash_token c (trim raw)) hash, e))
              ∙ found,
          revoked,
        )
      ]

  Changes-IsRevoked :
      (hash : Text) {rows rows' : List ClientRow}
      → Changes rows rows'
      → IsRevoked hash rows
      → IsRevoked hash rows'
  unfolding IsRevoked
  Changes-IsRevoked hash unchanged v = v
  Changes-IsRevoked hash
        (changed (issuing p n s t f raw id now now' x {rows} {rows'} {token} h) rest)
        (r, found, revoked) =
      Changes-IsRevoked hash rest
        (r, find-issue hash r p n s t f raw id now now' x rows rows' token h found, revoked)
  Changes-IsRevoked hash (changed (revoking raw now {rows}) rest) v =
      Changes-IsRevoked hash rest (revoke_token-IsRevoked hash raw now rows v)

  record_from_row-revoked :
      (row : ClientRow) (r : ApiClientRecord)
      → record_from_row c row ≡ ok r
      → r.revoked_at ≡ row.revoked_at
  unfolding record_from_row
  record_from_row-revoked row r h =
      let (scopes, read, done) = bind_ok (c.from_json row.scopes) _ r h in ground (arith, done)

  IsRevoked-refused :
      (raw required : Text) (later : ℤ) (rows : List ClientRow) (r : ApiClientRecord)
      → IsRevoked (hash_token c (trim raw)) rows
      → authorize_bearer c (some (text "Bearer " ++ raw)) required later rows ≢ ok r
  unfolding IsRevoked
  IsRevoked-refused raw required later rows r (row, found, revoked) h =
      let (raw', header, (row', found', loaded), live, early, allowed) =
        authorize_bearer_sound c (some (text "Bearer " ++ raw)) required later rows r h in
      let same : raw ≡ raw' = cc header in
      let there : find (hash_token c (trim raw)) rows ≡ some row' =
        subst (λ t. find (hash_token c (trim t)) rows ≡ some row') (sym same) found' in
      let one : row ≡ row' = cc (found, there) in
      ground (arith, one, revoked, live, record_from_row-revoked row' r loaded)

  -- Once a token that has a row is revoked, no header with it is let in, whatever is issued and
  -- revoked afterwards and whenever it is tried.
  pub revoke_token-final :
      (raw required : Text) (now later : ℤ) (rows rows' : List ClientRow) (r : ApiClientRecord)
      → (revoke_token c raw now rows).1 ≡ true
      → Changes (revoke_token c raw now rows).0 rows'
      → authorize_bearer c (some (text "Bearer " ++ raw)) required later rows' ≢ ok r
  unfolding revoke_token IsRevoked
  revoke_token-final raw required now later rows rows' r written changes =
      let hash = hash_token c (trim raw) in
      let (row, found) = find_of_any hash rows written in
      IsRevoked-refused raw required later rows' r (
        Changes-IsRevoked hash changes
          (set_revoked now row, find-revoke_rows hash now row rows found, refl))
