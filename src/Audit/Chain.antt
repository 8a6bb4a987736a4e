-- ===== src/Audit/Chain.antt =====
-- src/domain/services/audit_chain.rs. `sha256` is the digest of the `sha2` crate.
pub mod Tampering
pub mod Hex
pub mod Examples
use magiclaw.Common.{
  ℕ, suc, ◌+◌, ◌-◌, ◌/◌, ◌%◌, ◌^◌, ◌≡◌, refl, Bool, true, false, Option, none, some, List, [], ◌∷◌,
  ◌++◌, if◌then◌else◌, ◌==◌, nat_eq, list_eq, option_eq, ltb,
}
use magiclaw.Common.Int.{ℤ, pos, negsuc}
use magiclaw.Common.Result.{Result, ok, err, ◌>>=◌}
use magiclaw.Common.Text.{Text, text, as_bytes}

-- The digit of the table `HEX` at an index below 16.
abbrev pub hex_digit : ℕ → ℕ
hex_digit n = if ltb n 10 then b'0' + n else b'a' + (n - 10)

unfoldable pub to_hex : List ℕ → Text
to_hex [] = []
to_hex (b ∷ bytes) = hex_digit (b / 16) ∷ hex_digit (b % 16) ∷ to_hex bytes

-- `i64::to_be_bytes`: the eight bytes of the two's complement.
abbrev pub twos_complement : ℤ → ℕ
twos_complement (pos n) = n % 2 ^ 64
twos_complement (negsuc n) = 2 ^ 64 - 1 - n % 2 ^ 64

unfoldable pub to_be_bytes : ℤ → List ℕ
to_be_bytes i =
    let n = twos_complement i in
    (n / 2 ^ 56)
    ∷ (n / 2 ^ 48 % 256)
    ∷ (n / 2 ^ 40 % 256)
    ∷ (n / 2 ^ 32 % 256)
    ∷ (n / 2 ^ 24 % 256)
    ∷ (n / 2 ^ 16 % 256)
    ∷ (n / 2 ^ 8 % 256)
    ∷ (n % 256)
    ∷ []

pub data ChainError : Type 0 where
  head_mismatch : (id : ℤ) (expected actual : Option Text) → ChainError
  hash_mismatch : (id : ℤ) (expected actual : Text) → ChainError

pub record ChainRow : Type 0 where
  pub id : ℤ
  pub prev_hash : Option Text
  pub entry_hash : Text
  pub route_key : Option Text
  pub action : Text
  pub result : Text
  pub created_at : ℤ

-- `as_deref().unwrap_or("")`.
abbrev pub or_empty : Option Text → Text
or_empty none = []
or_empty (some s) = s

-- What is hashed for an entry.
unfoldable pub preimage : Text → Text → Text → Text → ℤ → List ℕ
preimage prev_hash route_key action result created_at =
    as_bytes prev_hash
    ++ (b'|' ∷ as_bytes route_key
        ++ (b'|' ∷ as_bytes action ++ (b'|' ∷ as_bytes result ++ (b'|' ∷ to_be_bytes created_at))))

module _ (sha256 : List ℕ → List ℕ) where
  unfoldable pub compute_entry_hash : Text → Text → Text → Text → ℤ → Text
  compute_entry_hash prev_hash route_key action result created_at =
      to_hex (sha256 (preimage prev_hash route_key action result created_at))

  -- The hash that a row's content gives.
  unfoldable pub row_hash : ChainRow → Text
  row_hash row =
      compute_entry_hash (or_empty row.prev_hash) (or_empty row.route_key) row.action row.result
        row.created_at

  -- The loop of `verify`, from a head.
  unfoldable pub verify_from : Option Text → List ChainRow → Result (Option Text) ChainError
  unfolding row_hash
  verify_from head [] = ok head
  verify_from head (row ∷ rows) =
      let computed = row_hash row in
      let rest = verify_from (some computed) rows in
      if row.prev_hash == head
      then (if computed == row.entry_hash
          then rest
          else err (hash_mismatch row.id computed row.entry_hash))
      else err (head_mismatch row.id head row.prev_hash)

  unfoldable pub verify : List ChainRow → Result (Option Text) ChainError
  unfolding verify_from
  verify rows = verify_from none rows
