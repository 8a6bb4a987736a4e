-- ===== src/Bindings/Csv.antt =====
-- `parse_csv_line` of src/application/binding.rs.
pub mod Roundtrip
use magiclaw.Common.{ℕ, Bool, true, false, List, [], ◌∷◌, ◌++◌, map, ◌==◌, nat_eq}
use magiclaw.Common.Text.{Text, trim}

-- The characters `"` and `,`.
abbrev pub quote : ℕ
quote = 34

abbrev pub comma : ℕ
comma = 44

-- The loop, from a point where a field has begun: the fields from there on.
unfoldable pub parse_fields : (in_quotes : Bool) → (field : Text) → (chars : Text) → List Text
parse_fields in_quotes field [] = field ∷ []
parse_fields true field (c ∷ []) = elim (c == quote) [
  | true ↦ field ∷ []
  | false ↦ (field ++ c ∷ []) ∷ []
]
parse_fields true field (c ∷ d ∷ chars) = elim (c == quote) [
  | true ↦ (elim (d == quote) [
    | true ↦ parse_fields true (field ++ quote ∷ []) chars
    | false ↦ parse_fields false field (d ∷ chars)
  ])
  | false ↦ parse_fields true (field ++ c ∷ []) (d ∷ chars)
]
parse_fields false field (c ∷ chars) = elim (c == quote) [
  | true ↦ parse_fields true field chars
  | false ↦ (elim (c == comma) [
    | true ↦ field ∷ parse_fields false [] chars
    | false ↦ parse_fields false (field ++ c ∷ []) chars
  ])
]

unfoldable pub parse_csv_line : Text → List Text
unfolding parse_fields
parse_csv_line line = map trim (parse_fields false [] line)
