-- ===== src/Database/Upsert.antt =====
-- `INSERT ... ON CONFLICT ... DO UPDATE` on the list of a table's rows: `same` finds the row that
-- conflicts, of which a table has one at most.
use magiclaw.Common.{
  ◌≡◌, Bool, true, not, ◌||◌, List, [], ◌∷◌, any, arith, if◌then◌else◌, if_intro, All,
}
use magiclaw.Common.Result.{Result, ok, err}
use magiclaw.Common.Text.{Text}

module _ {R : Type 0} where
  unfoldable pub upsert : (same : R → Bool) → (update : R → R) → (new : R) → List R → List R
  upsert same update new [] = new ∷ []
  upsert same update new (r ∷ rows) =
      let rest = upsert same update new rows in if same r then update r ∷ rows else r ∷ rest

  -- The table has a primary key that the clause does not name.
  unfoldable pub upsert_keyed :
      (conflict : Text)
      → (key : R → Bool) → (same : R → Bool) → (update : R → R) → (new : R) → List R
      → Result (List R) Text
  unfolding upsert
  upsert_keyed conflict key same update new rows =
      if any same rows || not (any key rows) then ok (upsert same update new rows) else err conflict

  module _ (same : R → Bool) (update : R → R) (new : R) where
    module _ (new_same : same new ≡ true)
        (kept : (r : R) → same r ≡ true → same (update r) ≡ true) where
      pub any-upsert : (rows : List R) → any same (upsert same update new rows) ≡ true
      unfolding upsert
      any-upsert [] = ground (arith, new_same)
      any-upsert (r ∷ rows) = ground (arith, any-upsert rows, kept r)

      -- The second time nothing changes.
      pub upsert_idempotent :
          (twice : (r : R) → same r ≡ true → update (update r) ≡ update r)
          → update new ≡ new
          → (rows : List R)
          → upsert same update new (upsert same update new rows) ≡ upsert same update new rows
      unfolding upsert
      upsert_idempotent twice fixed [] = ground (arith, new_same, fixed)
      upsert_idempotent twice fixed (r ∷ rows) =
          ground (arith, upsert_idempotent twice fixed rows, kept r, twice r)

    pub All-upsert :
        (P : R → Type 0) (rows : List R)
        → P new
        → ((r : R) → same r ≡ true → P r → P (update r))
        → All P rows
        → All P (upsert same update new rows)
    unfolding upsert
    All-upsert P [] n u h = (n, tt)
    All-upsert P (r ∷ rows) n u h =
        let rest = All-upsert P rows n u h.1 in
        if_intro (List R) (All P) (same r) _ _ (λ e. (u r e h.0, h.1)) (λ e. (h.0, rest))
