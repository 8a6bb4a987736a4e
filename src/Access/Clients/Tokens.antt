-- ===== src/Access/Clients/Tokens.antt =====
-- Who is let in by `authorize_bearer` of src/adapters/api_client_registry.rs.
use magiclaw.Common.{
  ◌≡◌, refl, ap, subst, true, false, Option, none, some, List, ◌++◌, arith, list_eq, nat_eq, inl,
  inr, Option-cases, is_empty,
}
use magiclaw.Common.Int.{ℤ, ◌+ℤ◌, ◌<ℤ◌}
use magiclaw.Common.Result.{Result, ok, err, bind_ok}
use magiclaw.Common.Text.{
  Text, text, strip_prefix, trim, strip_prefix-append, append_of_strip_prefix,
}
use magiclaw.Access.Clients.{
  Codec, ReadsBack, ClientRow, ApiClientRecord, find, matches_scope, hash_token, record_from_row,
  load_by_token_hash, authorize_record, authorize_token, authorize_bearer, issue_token, new_row,
  check_arguments, insert,
}
use magiclaw.Access.Clients.Rows.{find-insert}

module _ (c : Codec) where
  authorize_record_sound :
      (required : Text) (now : ℤ) (m : Result (Option ApiClientRecord) Text) (r : ApiClientRecord)
      → authorize_record c required now m ≡ ok r
      → (m ≡ ok (some r))
        × (r.revoked_at ≡ none)
        × (now <ℤ r.expires_at)
        × (matches_scope r.scopes required ≡ true)
  authorize_record_sound required now (err e) r h = absurd (cc h)
  authorize_record_sound required now (ok none) r h = absurd (cc h)
  authorize_record_sound required now (ok (some found)) r h =
      (ground (arith, h), ground (arith, h), ground (arith, h), ground (arith, h))

  load_sound :
      (hash : Text) (rows : List ClientRow) (r : ApiClientRecord)
      → load_by_token_hash c hash rows ≡ ok (some r)
      → (row : ClientRow) × (find hash rows ≡ some row) × (record_from_row c row ≡ ok r)
  load_sound hash rows r h = elim (Option-cases (find hash rows)) [
    | inl missing ↦ absurd (ground (arith, h, missing))
    | inr (row, found) ↦ (row, found, ground (arith, h, found))
  ]

  authorize_token_sound :
      (raw required : Text) (now : ℤ) (rows : List ClientRow) (r : ApiClientRecord)
      → authorize_token c raw required now rows ≡ ok r
      → authorize_record c required now (load_by_token_hash c (hash_token c raw) rows) ≡ ok r
  authorize_token_sound raw required now rows r h = ground (arith, h)

  -- Only a header with the scheme `Bearer` and a token lets a caller in whose hash a row has, which
  -- is not revoked and has not expired, and whose scopes have the required one or the wildcard.
  pub authorize_bearer_sound :
      (header : Option Text) (required : Text) (now : ℤ) (rows : List ClientRow)
      (r : ApiClientRecord)
      → authorize_bearer c header required now rows ≡ ok r
      → (raw : Text) × (header ≡ some (text "Bearer " ++ raw))
        × ((row : ClientRow) × (find (hash_token c (trim raw)) rows ≡ some row)
            × (record_from_row c row ≡ ok r))
        × (r.revoked_at ≡ none)
        × (now <ℤ r.expires_at)
        × (matches_scope r.scopes required ≡ true)
  unfolding authorize_bearer
  authorize_bearer_sound none required now rows r h = absurd (cc h)
  authorize_bearer_sound (some header) required now rows r h =
      elim (Option-cases (strip_prefix (text "Bearer ") header)) [
        | inl missing ↦ absurd (ground (arith, h, missing))
        | inr (raw, found) ↦
            (let passed =
                authorize_record_sound required now
                  (load_by_token_hash c (hash_token c (trim raw)) rows) r
                  (authorize_token_sound (trim raw) required now rows r
                    (ground (arith, h, found))) in
              (
                raw,
                ap some (append_of_strip_prefix (text "Bearer ") header raw found),
                load_sound (hash_token c (trim raw)) rows r passed.0,
                passed.1,
                passed.2,
                passed.3,
              ))
      ]

  authorize_bearer-of_row :
      (raw required : Text) (now : ℤ) (rows : List ClientRow) (row : ClientRow) (scopes : List Text)
      → trim raw ≡ raw
      → is_empty raw ≡ false
      → find (hash_token c raw) rows ≡ some row
      → c.from_json row.scopes ≡ ok scopes
      → row.revoked_at ≡ none
      → now <ℤ row.expires_at
      → matches_scope scopes required ≡ true
      → (r : ApiClientRecord) × (authorize_bearer c (some (text "Bearer " ++ raw)) required now rows
          ≡ ok r)
        × (r.id ≡ row.id)
        × (r.project_id ≡ row.project_id)
  unfolding authorize_bearer record_from_row
  authorize_bearer-of_row raw required now rows row scopes bare full found read live early allowed =
      (
        record {
          id = row.id;
          project_id = row.project_id;
          client_name = row.client_name;
          token_hash = row.token_hash;
          scopes = scopes;
          created_at = row.created_at;
          expires_at = row.expires_at;
          revoked_at = row.revoked_at;
          rotated_from = row.rotated_from;
        },
        ground (
          arith,
          bare,
          full,
          found,
          read,
          live,
          early,
          allowed,
          strip_prefix-append (text "Bearer ") raw,
        ),
        refl,
        refl,
      )

  -- A token that has been issued is accepted until it expires, for the scopes that it was issued
  -- with, where the random text has nothing to trim; it acts for the project that it was issued to.
  pub authorize_bearer-issued :
      ReadsBack c
      → (project_id client_name : Text) (scopes : List Text) (ttl : ℤ) (rotated_from : Option Text)
        (raw id : Text) (now now' : ℤ) (conflict : Text) (rows : List ClientRow)
        (after : List ClientRow × Text)
      → issue_token c project_id client_name scopes ttl rotated_from raw id now now' conflict rows
        ≡ ok after
      → trim raw ≡ raw
      → is_empty raw ≡ false
      → (required : Text) (later : ℤ) → later <ℤ (now' +ℤ ttl)
      → matches_scope scopes required ≡ true
      → (r : ApiClientRecord) × (authorize_bearer c
            (some (text "Bearer " ++ after.1))
            required
            later
            after.0
          ≡ ok r)
        × (r.id ≡ id)
        × (r.project_id ≡ trim project_id)
  unfolding issue_token new_row
  authorize_bearer-issued reads project client scopes ttl from raw id now now' conflict rows after h
        bare full required later early allowed =
      let (u, checked, rest) = bind_ok (check_arguments c project client ttl) _ after h in
      let (json, written, rest') = bind_ok (c.to_json scopes) _ after rest in
      let row = new_row c project client json ttl from raw id now now' in
      let (rows', inserted, done) = bind_ok (insert conflict row rows) _ after rest' in
      let issued : (rows', raw) ≡ after = ground (arith, done) in
      subst
        (λ a.
          (r : ApiClientRecord) × (authorize_bearer c (some (text "Bearer " ++ a.1)) required later
              a.0
            ≡ ok r)
          × (r.id ≡ id)
          × (r.project_id ≡ trim project))
        issued
        (authorize_bearer-of_row raw required later rows' row scopes bare full
          (find-insert conflict row rows rows' inserted) (reads scopes json written) refl early
          allowed)
