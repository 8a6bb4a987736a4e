-- ===== src/Bindings/Csv/Roundtrip.antt =====
-- `parse_csv_line` of src/application/binding.rs on lines that are written as RFC 4180 says.
use magiclaw.Common.{
  ℕ, ◌≡◌, ◌≢◌, refl, sym, ap, subst, ◌∙◌, Bool, true, false, List, [], ◌∷◌, ◌++◌, map, ◌==◌,
  ==_cases, nat_eq, All, arith, inl, inr, Option, none, some,
}
use mathlib.Core.List.{append_assoc}
use magiclaw.Common.Text.{Text, trim}
use magiclaw.Bindings.Csv.{quote, comma, parse_fields, parse_csv_line}

-- Every quote of the text is doubled.
unfoldable pub escape : Text → Text
escape [] = []
escape (c ∷ s) = elim (c == quote) [ true ↦ quote ∷ quote ∷ escape s | false ↦ c ∷ escape s ]

-- A field, in quotes where `quoted`.
pub record Field : Type 0 where
  pub quoted : Bool
  pub value : Text

abbrev pub write_field : Bool → Text → Text
write_field true value = quote ∷ escape value ++ quote ∷ []
write_field false value = value

unfoldable pub write_line : List Field → Text
write_line [] = []
write_line (f ∷ []) = write_field f.quoted f.value
write_line (f ∷ g ∷ fields) = write_field f.quoted f.value ++ comma ∷ write_line (g ∷ fields)

-- A field that stands without quotes has neither a quote nor a comma.
abbrev pub Writable : Bool → Text → Type 0
Writable true value = Unit
Writable false value = All (λ c. (c ≢ quote) × (c ≢ comma)) value

-- What follows a field, and how the loop goes on there.
abbrev ending : Option Text → Text
ending none = []
ending (some chars) = comma ∷ chars

abbrev rest_fields : Option Text → List Text
unfolding parse_fields
rest_fields none = []
rest_fields (some chars) = parse_fields false [] chars

append_nil : (xs : Text) → xs ++ [] ≡ xs
append_nil [] = refl
append_nil (x ∷ xs) = ap (λ l. x ∷ l) (append_nil xs)

push_quoted :
    (field : Text) (c : ℕ) (chars : Text)
    → (c == quote) ≡ false
    → parse_fields true field (c ∷ chars) ≡ parse_fields true (field ++ c ∷ []) chars
unfolding parse_fields
push_quoted field c [] h = ground (arith, h)
push_quoted field c (d ∷ chars) h = ground (arith, h)

escape_other : (c : ℕ) (s : Text) → (c == quote) ≡ false → escape (c ∷ s) ≡ c ∷ escape s
unfolding escape
escape_other c s h = ground (arith, h)

parse_fields-quoted :
    (field value : Text) (end : Option Text)
    → parse_fields true field (escape value ++ quote ∷ ending end)
      ≡ (field ++ value) ∷ rest_fields end
unfolding parse_fields escape
parse_fields-quoted field [] none = ap (λ f. f ∷ []) (sym (append_nil field))
parse_fields-quoted field [] (some chars) =
    ap (λ f. f ∷ parse_fields false [] chars) (sym (append_nil field))
parse_fields-quoted field (c ∷ value) end =
    let shift = λ (d : ℕ). ap (λ f. f ∷ rest_fields end) (append_assoc field (d ∷ []) value) in
    elim (==_cases c quote) [
      | inl same ↦ rw same (parse_fields-quoted (field ++ quote ∷ []) value end ∙ shift quote)
      | inr (ne, other) ↦
          ap (λ e. parse_fields true field (e ++ quote ∷ ending end)) (escape_other c value other)
          ∙ push_quoted field c _ other
          ∙ parse_fields-quoted (field ++ c ∷ []) value end
          ∙ shift c
    ]

parse_fields-plain :
    (field value : Text) (end : Option Text)
    → Writable false value
    → parse_fields false field (value ++ ending end) ≡ (field ++ value) ∷ rest_fields end
unfolding parse_fields
parse_fields-plain field [] none h = ap (λ f. f ∷ []) (sym (append_nil field))
parse_fields-plain field [] (some chars) h =
    ap (λ f. f ∷ parse_fields false [] chars) (sym (append_nil field))
parse_fields-plain field (c ∷ value) end h =
    let rest = parse_fields-plain (field ++ c ∷ []) value end h.1 in
    let shift = ap (λ f. f ∷ rest_fields end) (append_assoc field (c ∷ []) value) in
    ground (arith, h.0, rest, shift)

parse_fields-field :
    (quoted : Bool) (value : Text) (end : Option Text)
    → Writable quoted value
    → parse_fields false [] (write_field quoted value ++ ending end) ≡ value ∷ rest_fields end
unfolding parse_fields
parse_fields-field true value end h =
    rw (append_assoc (escape value) (quote ∷ []) (ending end)) (parse_fields-quoted [] value end)
parse_fields-field false value end h = parse_fields-plain [] value end h

abbrev pub AllWritable : List Field → Type 0
AllWritable fields = All (λ f. Writable f.quoted f.value) fields

parse_fields-write_line :
    (f : Field) (fields : List Field)
    → AllWritable (f ∷ fields)
    → parse_fields false [] (write_line (f ∷ fields)) ≡ map (λ g. g.value) (f ∷ fields)
unfolding write_line rest_fields
parse_fields-write_line f [] h =
    subst (λ s. parse_fields false [] s ≡ f.value ∷ []) (append_nil (write_field f.quoted f.value))
      (parse_fields-field f.quoted f.value none h.0)
parse_fields-write_line f (g ∷ fields) h =
    parse_fields-field f.quoted f.value (some (write_line (g ∷ fields))) h.0
    ∙ ap (λ l. f.value ∷ l) (parse_fields-write_line g fields h.1)

map-value :
    (fields : List Field) → map trim (map (λ g. g.value) fields) ≡ map (λ g. trim g.value) fields
map-value [] = refl
map-value (f ∷ fields) = ap (λ l. trim f.value ∷ l) (map-value fields)

-- A line of one field or more, each in quotes or free of quotes and commas, is read as the values of
-- its fields without the spaces around them.
pub parse_csv_line-write_line :
    (f : Field) (fields : List Field)
    → AllWritable (f ∷ fields)
    → parse_csv_line (write_line (f ∷ fields)) ≡ map (λ g. trim g.value) (f ∷ fields)
unfolding parse_csv_line
parse_csv_line-write_line f fields h =
    ap (λ l. map trim l) (parse_fields-write_line f fields h) ∙ map-value (f ∷ fields)
