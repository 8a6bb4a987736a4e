-- ===== src/Bindings/Import/Counts.antt =====
-- The counts of the imports of src/application/binding.rs.
use magiclaw.Common.{
  ℕ, ◌+◌, ◌≡◌, refl, List, [], ◌∷◌, ◌++◌, subst, arith, length, length-append, if◌then◌else◌,
  Bool-cases, inl, inr,
}
use magiclaw.Common.Int.{ℤ}
use magiclaw.Common.Result.{Result, ok, err}
use magiclaw.Common.Text.{Text}
use magiclaw.Database.{World}
use magiclaw.Bindings.{BindingImportRecord, Tables, is_blank}
use magiclaw.Bindings.Import.{
  ImportSummary, empty_summary, count, place_of, apply_or, read_csv, read_jsonl, import_lines,
  import_bindings_csv, import_bindings_jsonl,
}

-- The lines that are not blank.
abbrev pub written : List Text → ℕ
written [] = 0
written (l ∷ lines) = if is_blank l then written lines else written lines + 1

-- A summary that counts n lines more.
abbrev pub Counts : ImportSummary → ℕ → ImportSummary → Type 0
Counts s n s' =
    (s'.total ≡ s.total + n)
    × (s'.success + s'.failed ≡ s.success + s.failed + n)
    × (length s'.errors + s.failed ≡ length s.errors + s'.failed)

-- An import that returns a summary.
abbrev pub Returns : ImportSummary → ℕ → Result ImportSummary Text × World Tables → Type 0
Returns s n r = (s' : ImportSummary) × (r.0 ≡ ok s') × Counts s n s'

count-Counts :
    (place : Text) (r : Result Unit Text) (s : ImportSummary) → Counts s 1 (count place r s)
count-Counts place (ok u) s = (refl, omega arith, refl)
count-Counts place (err e) s =
    (refl, omega arith, omega (arith, length-append s.errors ((place ++ e) ∷ [])))

Counts-trans : (s t u : ImportSummary) (n : ℕ) → Counts s 1 t → Counts t n u → Counts s (n + 1) u
Counts-trans s t u n h k = (omega (arith, h, k), omega (arith, h, k), omega (arith, h, k))

module _ (conflict : Text) (number : ℕ → Text) where
  import_lines-Returns :
      (read : Text → Result BindingImportRecord Text) (ts : ℤ) (line : ℕ) (lines : List Text)
      (s : ImportSummary) (w : World Tables)
      → Returns s (written lines) (import_lines conflict number read ts line lines s w)
  unfolding import_lines
  import_lines-Returns read ts line [] s w = (s, refl, (omega arith, omega arith, refl))
  import_lines-Returns read ts line (l ∷ lines) s w = elim (Bool-cases (is_blank l)) [
    | inl blank ↦
        (let (t, done, counts) = import_lines-Returns read ts (line + 1) lines s w in
          (t, ground (arith, blank, done), ground (arith, blank, counts)))
    | inr text_line ↦
        (let r = apply_or conflict number ts (read l) w in
          let (t, done, counts) =
            import_lines-Returns read ts (line + 1) lines
              (count (place_of conflict number line) r.0 s) r.1 in
          (
            t,
            ground (arith, text_line, done),
            subst (λ n. Counts s n t) (ground (arith, text_line))
                (Counts-trans s (count (place_of conflict number line) r.0 s) t (written lines)
                  (count-Counts (place_of conflict number line) r.0 s) counts),
          ))
  ]

  -- What an import reports: each line that is not blank counts once, as a success or a failure,
  -- and each failure has its message.
  abbrev pub Reports : ℕ → Result ImportSummary Text × World Tables → Type 0
  Reports n r =
      (s : ImportSummary) × (r.0 ≡ ok s)
      × (s.total ≡ n)
      × (s.success + s.failed ≡ n)
      × (length s.errors ≡ s.failed)

  Returns-Reports :
      (n : ℕ) (r : Result ImportSummary Text × World Tables)
      → Returns empty_summary n r
      → Reports n r
  Returns-Reports n r (s, done, (total, sum, errors)) =
      (s, done, omega (arith, total), omega (arith, sum), omega (arith, errors))

  -- Whatever the lines hold and wherever the database fails, an import of CSV returns a summary in
  -- which each line after the header that is not blank counts once, as a success or as a failure,
  -- and each failure has its message; likewise an import of JSONL, for each line that is not blank.
  pub imports-Reports :
      (from_json : Text → Result BindingImportRecord Text) (ts : ℤ) (header : Text)
      (lines : List Text) (w : World Tables)
      → Reports (written lines) (import_bindings_csv conflict number ts (header ∷ lines) w)
        × Reports (written lines) (import_bindings_jsonl conflict number from_json ts lines w)
  unfolding import_bindings_csv import_bindings_jsonl
  imports-Reports from_json ts header lines w = (
    Returns-Reports (written lines)
        (import_lines conflict number (read_csv conflict number) ts 2 lines empty_summary w)
        (import_lines-Returns (read_csv conflict number) ts 2 lines empty_summary w),
    Returns-Reports (written lines)
        (import_lines conflict number (read_jsonl conflict number from_json) ts 1 lines
          empty_summary w)
        (import_lines-Returns (read_jsonl conflict number from_json) ts 1 lines empty_summary w),
  )
