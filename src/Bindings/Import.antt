-- ===== src/Bindings/Import.antt =====
-- The imports and the listings of src/application/binding.rs.
pub mod Counts
use magiclaw.Common.{
  ℕ, suc, ◌+◌, Bool, true, false, ◌&&◌, Option, none, some, List, [], ◌∷◌, ◌++◌, map, if◌then◌else◌,
  ◌==◌, list_eq, nat_eq, ltb, length, get_elem?,
}
use magiclaw.Common.Int.{ℤ}
use magiclaw.Common.Result.{Result, ok, err, map_err}
use magiclaw.Common.Text.{Text, text, trim}
use magiclaw.Database.{World, Db, pure, ◌>>=◌, attempt, with_prefix, query}
use magiclaw.Bindings.{
  BindingImportRecord, Tables, Project, TargetRow, Binding, active, is_blank, apply_binding_record,
}
use magiclaw.Bindings.Csv.{parse_csv_line}

pub record ImportSummary : Type 0 where
  pub total : ℕ
  pub success : ℕ
  pub failed : ℕ
  pub errors : List Text

abbrev pub empty_summary : ImportSummary
empty_summary = record { total = 0; success = 0; failed = 0; errors = [] }

-- What an import counts for a line that it read, or that it could not read.
abbrev pub count : (place : Text) → Result Unit Text → ImportSummary → ImportSummary
count place (ok u) s = record s { total = s.total + 1; success = s.success + 1 }
count place (err e) s = record s {
  total = s.total + 1;
  failed = s.failed + 1;
  errors = s.errors ++ (place ++ e) ∷ [];
}

-- The sixth field, unless it is blank.
abbrev pub source_field : Option Text → Text
source_field none = text "import"
source_field (some s) = if is_blank s then text "import" else s

-- The record of a CSV line.
unfoldable pub record_of_fields : List Text → Option BindingImportRecord
record_of_fields (key ∷ channel ∷ peer ∷ conversation ∷ kind ∷ rest) = some (record {
  project_key = key;
  channel = channel;
  peer_id = peer;
  conversation_id = conversation;
  conversation_type = kind;
  bind_source = source_field (get_elem? rest 0);
  project_name = none;
  account_scope = none;
})
record_of_fields _ = none

-- `conflict` as in `Bindings`; `number` writes a number in decimal.
module _ (conflict : Text) (number : ℕ → Text) where
  abbrev pub place_of : ℕ → Text
  place_of line = text "line " ++ number line ++ text ": "

  -- A record that was read, or the message of why it was not.
  abbrev pub apply_or : ℤ → Result BindingImportRecord Text → Db Tables Unit
  unfolding apply_binding_record
  apply_or ts (ok r) = apply_binding_record conflict ts r
  apply_or ts (err e) = λ w. (err e, w)

  abbrev pub read_csv : Text → Result BindingImportRecord Text
  unfolding parse_csv_line record_of_fields
  read_csv line = elim (record_of_fields (parse_csv_line line)) [
    | some r ↦ ok r
    | none ↦ err (text "expected >=5 columns, got " ++ number (length (parse_csv_line line)))
  ]

  -- The loops over the lines, `line` being the number of the next one.
  unfoldable pub import_lines :
      (read : Text → Result BindingImportRecord Text)
      → ℤ
      → (line : ℕ) → List Text
      → ImportSummary
      → Db Tables ImportSummary
  unfolding apply_binding_record
  import_lines read ts line [] s = pure s
  import_lines read ts line (l ∷ lines) s = elim (is_blank l) [
    | true ↦ import_lines read ts (line + 1) lines s
    | false ↦ (do
      done ← attempt (apply_or ts (read l))
      import_lines read ts (line + 1) lines (count (place_of line) done s))
  ]

  -- On the file's lines, of which the first is the header.
  unfoldable pub import_bindings_csv : ℤ → List Text → Db Tables ImportSummary
  unfolding import_lines read_csv
  import_bindings_csv ts [] = pure empty_summary
  import_bindings_csv ts (header ∷ lines) = import_lines read_csv ts 2 lines empty_summary

  -- `from_json` is serde's.
  abbrev pub read_jsonl :
      (from_json : Text → Result BindingImportRecord Text) → Text → Result BindingImportRecord Text
  read_jsonl from_json line = map_err (λ e. text "parse error: " ++ e) (from_json (trim line))

  unfoldable pub import_bindings_jsonl :
      (from_json : Text → Result BindingImportRecord Text) → ℤ → List Text → Db Tables ImportSummary
  unfolding import_lines
  import_bindings_jsonl from_json ts lines =
      import_lines (read_jsonl from_json) ts 1 lines empty_summary
