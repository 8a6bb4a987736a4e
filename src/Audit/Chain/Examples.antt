-- ===== src/Audit/Chain/Examples.antt =====
-- The chain over a stand-in digest, and the theorems at concrete inputs.
use magiclaw.Common.{ℕ, ◌+◌, ◌%◌, ◌<◌, ◌≡◌, ◌⊎◌, refl, none, some, List, [], ◌∷◌, arith, All}
use magiclaw.Common.Int.{pos}
use magiclaw.Common.Result.{ok}
use magiclaw.Common.Text.{text, as_bytes}
use magiclaw.Audit.Chain.{
  ChainRow, compute_entry_hash, verify, verify_from, preimage, to_hex, to_be_bytes,
}
use magiclaw.Audit.Chain.Tampering.{bodies, Collision, verify_binds, verify_separator}

-- The sum of the bytes, as one byte.
abbrev sum : List ℕ → ℕ
sum [] = 0
sum (x ∷ xs) = x + sum xs

abbrev pub checksum : List ℕ → List ℕ
checksum xs = (sum xs % 256) ∷ []

pub checksum_bytes : (xs : List ℕ) → All (λ b. b < 256) (checksum xs)
checksum_bytes xs = (omega arith, tt)

abbrev row : ChainRow
row = record {
  id = pos 1;
  prev_hash = none;
  entry_hash = compute_entry_hash checksum [] (text "a") (text "send") (text "ok") (pos 100);
  route_key = some (text "a");
  action = text "send";
  result = text "ok";
  created_at = pos 100;
}

row_verifies : verify checksum (row ∷ []) ≡ ok (some row.entry_hash)
unfolding verify compute_entry_hash preimage to_hex as_bytes to_be_bytes
row_verifies = refl

verify_binds_example : (bodies (row ∷ []) ≡ bodies (row ∷ [])) ⊎ Collision checksum
verify_binds_example =
    verify_binds checksum checksum_bytes (row ∷ []) (row ∷ []) (some row.entry_hash) row_verifies
      row_verifies refl

verify_separator_example :
    verify_from checksum none (record row { action = text "send|x"; result = text "ok" } ∷ [])
    ≡ verify_from checksum none (record row { action = text "send"; result = text "x|ok" } ∷ [])
verify_separator_example =
    verify_separator checksum none row [] (text "send") (text "x") (text "ok")
