-- ===== src/Access/Clients/Examples.antt =====
-- A registry with a plain codec: digests and base64 leave their input as it is, and a list of one
-- scope is written as that scope.
use magiclaw.Common.{◌≡◌, ◌≢◌, refl, true, none, some, List, [], ◌∷◌, ◌++◌, arith}
use magiclaw.Common.Int.{pos, ◌<ℤ◌, ◌+ℤ◌}
use magiclaw.Common.Result.{Result, ok, err}
use magiclaw.Common.Text.{Text, text, trim, trim_start, trim_end, strip_prefix, as_bytes, utf8}
use magiclaw.Access.Clients.{
  Codec, ReadsBack, ClientRow, ApiClientRecord, find, hash_token, record_from_row, matches_scope,
  authorize_bearer, issue_token, revoke_token, new_row, insert,
}
use magiclaw.Access.Clients.Tokens.{authorize_bearer_sound, authorize_bearer-issued}
use magiclaw.Access.Clients.Revocation.{unchanged, revoke_token-final}

abbrev write_single : List Text → Result Text Text
write_single [] = err (text "empty")
write_single (s ∷ []) = ok s
write_single (s ∷ t ∷ rest) = err (text "too many")

abbrev pub plain : Codec
plain = record {
  sha256 = λ bytes. bytes;
  base64 = λ bytes. bytes;
  to_json = write_single;
  from_json = λ json. ok (json ∷ []);
}

plain-ReadsBack : ReadsBack plain
plain-ReadsBack [] json h = absurd (cc h)
plain-ReadsBack (s ∷ []) json h = cc h
plain-ReadsBack (s ∷ t ∷ rest) json h = absurd (cc h)

abbrev pub client : ClientRow
client = record {
  id = text "c1";
  project_id = text "p1";
  client_name = text "bot";
  token_hash = text "key";
  scopes = text "send";
  created_at = pos 100;
  expires_at = pos 160;
  revoked_at = none;
  rotated_from = none;
}

abbrev pub client_record : ApiClientRecord
client_record = record {
  id = text "c1";
  project_id = text "p1";
  client_name = text "bot";
  token_hash = text "key";
  scopes = text "send" ∷ [];
  created_at = pos 100;
  expires_at = pos 160;
  revoked_at = none;
  rotated_from = none;
}

authorize_bearer_sound_example :
    (raw : Text) × (some (text "Bearer key") ≡ some (text "Bearer " ++ raw))
    × ((row : ClientRow) × (find (hash_token plain (trim raw)) (client ∷ []) ≡ some row)
        × (record_from_row plain row ≡ ok client_record))
    × (client_record.revoked_at ≡ none)
    × (pos 120 <ℤ pos 160)
    × (matches_scope (text "send" ∷ []) (text "send") ≡ true)
unfolding authorize_bearer strip_prefix trim trim_start trim_end hash_token as_bytes utf8 find
    record_from_row
authorize_bearer_sound_example =
    authorize_bearer_sound plain (some (text "Bearer key")) (text "send") (pos 120) (client ∷ [])
      client_record refl

authorize_bearer-issued_example :
    (r : ApiClientRecord) × (authorize_bearer plain
        (some (text "Bearer key"))
        (text "send")
        (pos 120)
        (client ∷ [])
      ≡ ok r)
    × (r.id ≡ text "c1")
    × (r.project_id ≡ trim (text "p1"))
unfolding issue_token new_row insert hash_token as_bytes utf8 trim trim_start trim_end ◌+ℤ◌
authorize_bearer-issued_example =
    authorize_bearer-issued plain plain-ReadsBack (text "p1") (text "bot") (text "send" ∷ [])
      (pos 60) none (text "key") (text "c1") (pos 100) (pos 100) (text "conflict") []
      (client ∷ [], text "key") refl refl refl (text "send") (pos 120) (ground arith) refl

revoke_token-final_example :
    authorize_bearer plain
      (some (text "Bearer " ++ text "key"))
      (text "send")
      (pos 150)
      (revoke_token plain (text "key") (pos 130) (client ∷ [])).0
    ≢ ok client_record
unfolding revoke_token hash_token as_bytes utf8 trim trim_start trim_end
revoke_token-final_example =
    revoke_token-final plain (text "key") (text "send") (pos 130) (pos 150) (client ∷ [])
      (revoke_token plain (text "key") (pos 130) (client ∷ [])).0 client_record refl unchanged
