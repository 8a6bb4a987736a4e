-- ===== src/Domain/Btree.antt =====
-- The operations of `BTreeMap<i64, V>` that the reorder window uses, on the list of its entries in
-- ascending order of their keys.
use magiclaw.Common.{
  ◌≡◌, refl, false, List, [], ◌∷◌, ◌++◌, map, arith, if◌then◌else◌, ◌==◌, Bool-cases, ◌⊎◌, inl, inr,
}
use magiclaw.Common.Int.{ℤ, int_eq, ltb_ℤ, leb_ℤ, ◌<ℤ◌, ◌≤ℤ◌, eq_of_parts}
use mathlib.Core.List.{Perm, perm_middle}
use mathlib.Core.List.Perm

module _ {ℓ} {V : Type ℓ} where
  -- An entry of the same key is replaced.
  unfoldable pub insert : ℤ → V → List (ℤ × V) → List (ℤ × V)
  insert k v [] = (k, v) ∷ []
  insert k v ((j, w) ∷ m) =
      if ltb_ℤ k j
      then (k, v) ∷ (j, w) ∷ m
      else if k == j
      then (k, v) ∷ m
      else (j, w) ∷ insert k v m

  unfoldable pub remove : ℤ → List (ℤ × V) → List (ℤ × V)
  remove k [] = []
  remove k ((j, w) ∷ m) = if k == j then m else (j, w) ∷ remove k m

  -- `values`.
  abbrev pub values : List (ℤ × V) → List V
  values m = map (λ e. e.1) m

  -- The entries of `range(..=cutoff)`.
  unfoldable pub range_to : ℤ → List (ℤ × V) → List (ℤ × V)
  range_to cutoff [] = []
  range_to cutoff ((k, v) ∷ m) =
      let rest = range_to cutoff m in if leb_ℤ k cutoff then (k, v) ∷ rest else rest

  unfoldable pub range_above : ℤ → List (ℤ × V) → List (ℤ × V)
  range_above cutoff [] = []
  range_above cutoff ((k, v) ∷ m) =
      let rest = range_above cutoff m in if leb_ℤ k cutoff then rest else (k, v) ∷ rest

  abbrev pub Above : ℤ → List (ℤ × V) → Type 0
  Above k [] = Unit
  Above k ((j, w) ∷ m) = (k <ℤ j) × Above k m

  -- The keys rise strictly.
  abbrev pub Ascending : List (ℤ × V) → Type 0
  Ascending [] = Unit
  Ascending ((k, v) ∷ m) = Above k m × Ascending m

  abbrev pub HasKey : ℤ → List (ℤ × V) → Type 0
  HasKey k [] = ⊥
  HasKey k ((j, w) ∷ m) = (k ≡ j) ⊎ HasKey k m

  pub Above-trans : (a b : ℤ) (m : List (ℤ × V)) → a <ℤ b → Above b m → Above a m
  Above-trans a b [] h h' = tt
  Above-trans a b ((j, w) ∷ m) h (p, ps) = (omega arith, Above-trans a b m h ps)

  pub insert-Above :
      (a k : ℤ) (v : V) (m : List (ℤ × V)) → a <ℤ k → Above a m → Above a (insert k v m)
  unfolding insert
  insert-Above a k v [] h p = (h, tt)
  insert-Above a k v ((j, w) ∷ m) h (p, ps) = ground (arith, insert-Above a k v m h ps)

  pub insert-Ascending : (k : ℤ) (v : V) (m : List (ℤ × V)) → Ascending m → Ascending (insert k v m)
  unfolding insert
  insert-Ascending k v [] h = (tt, tt)
  insert-Ascending k v ((j, w) ∷ m) (p, ps) =
      ground
        (arith, insert-Ascending k v m ps, insert-Above j k v m, Above-trans k j m, eq_of_parts k j)

  same_remove : (k : ℤ) (m : List (ℤ × V)) → Above k m → Perm m (remove k m)
  unfolding remove
  same_remove k [] h = Perm.refl _
  same_remove k ((j, w) ∷ m) (p, ps) =
      let ne : (k == j) ≡ false = ground arith in
      rw (ne, remove) (Perm.cons (j, w) (same_remove k m ps))

  -- An insertion adds its entry to those of other keys.
  pub insert-perm-remove :
      (k : ℤ) (v : V) (m : List (ℤ × V)) → Ascending m → Perm (insert k v m) ((k, v) ∷ remove k m)
  unfolding insert remove
  insert-perm-remove k v [] h = Perm.refl _
  insert-perm-remove k v ((j, w) ∷ m) (p, ps) =
      let rest =
        Perm.trans (Perm.cons (j, w) (insert-perm-remove k v m ps))
          (Perm.swap (k, v) (j, w) (remove k m)) in
      elim (Bool-cases (ltb_ℤ k j)) [
        | inl e ↦
            let ne : (k == j) ≡ false = ground arith in
            rw (e, ne, insert, remove)
              (Perm.cons (k, v)
                (Perm.cons (j, w) (same_remove k m (Above-trans k j m (ground arith) p))))
        | inr e ↦ elim (Bool-cases (k == j)) [
          | inl q ↦ rw (e, q, insert, remove) (Perm.refl _)
          | inr q ↦ rw (e, q, insert, remove) rest
        ]
      ]

  -- A key that is not there joins the entries.
  pub insert-perm :
      (k : ℤ) (v : V) (m : List (ℤ × V)) → ¬ HasKey k m → Perm (insert k v m) ((k, v) ∷ m)
  unfolding insert
  insert-perm k v [] h = Perm.refl _
  insert-perm k v ((j, w) ∷ m) h =
      let rest =
        Perm.trans (Perm.cons (j, w) (insert-perm k v m (λ x. h (inr x))))
          (Perm.swap (k, v) (j, w) m) in
      elim (Bool-cases (ltb_ℤ k j)) [
        | inl e ↦ rw (e, insert) (Perm.refl _)
        | inr e ↦ elim (Bool-cases (k == j)) [
          | inl q ↦ absurd (h (inl ((int_eq.eq_iff k j).0 q)))
          | inr q ↦ rw (e, q, insert) rest
        ]
      ]

  pub range_perm :
      (cutoff : ℤ) (m : List (ℤ × V)) → Perm m (range_to cutoff m ++ range_above cutoff m)
  unfolding range_to range_above
  range_perm cutoff [] = Perm.refl _
  range_perm cutoff ((k, v) ∷ m) =
      let rest = Perm.cons (k, v) (range_perm cutoff m) in
      ground (
        arith,
        rest,
        Perm.trans rest (Perm.symm (perm_middle (range_to cutoff m) (range_above cutoff m))),
      )

  abbrev pub AtMost : ℤ → List (ℤ × V) → Type 0
  AtMost c [] = Unit
  AtMost c ((j, w) ∷ m) = (j ≤ℤ c) × AtMost c m

  pub range_to-AtMost : (c : ℤ) (m : List (ℤ × V)) → AtMost c (range_to c m)
  unfolding range_to
  range_to-AtMost c [] = tt
  range_to-AtMost c ((k, v) ∷ m) = ground (arith, range_to-AtMost c m)

  pub range_above-Above : (c : ℤ) (m : List (ℤ × V)) → Above c (range_above c m)
  unfolding range_above
  range_above-Above c [] = tt
  range_above-Above c ((k, v) ∷ m) = ground (arith, range_above-Above c m)

  pub range_to-Above : (a c : ℤ) (m : List (ℤ × V)) → Above a m → Above a (range_to c m)
  unfolding range_to
  range_to-Above a c [] h = tt
  range_to-Above a c ((k, v) ∷ m) (p, ps) = ground (arith, range_to-Above a c m ps)

  pub range_to-Ascending : (c : ℤ) (m : List (ℤ × V)) → Ascending m → Ascending (range_to c m)
  unfolding range_to
  range_to-Ascending c [] h = tt
  range_to-Ascending c ((k, v) ∷ m) (p, ps) =
      ground (arith, range_to-Ascending c m ps, range_to-Above k c m p)

  pub range_above-Above_any : (a c : ℤ) (m : List (ℤ × V)) → Above a m → Above a (range_above c m)
  unfolding range_above
  range_above-Above_any a c [] h = tt
  range_above-Above_any a c ((k, v) ∷ m) (p, ps) = ground (arith, range_above-Above_any a c m ps)

  pub range_above-Ascending : (c : ℤ) (m : List (ℤ × V)) → Ascending m → Ascending (range_above c m)
  unfolding range_above
  range_above-Ascending c [] h = tt
  range_above-Ascending c ((k, v) ∷ m) (p, ps) =
      ground (arith, range_above-Ascending c m ps, range_above-Above_any k c m p)

  -- Where all keys are above the cutoff, the range is empty.
  pub range_to-eq-nil :
      (c k : ℤ) (m : List (ℤ × V))
      → c <ℤ k
      → Above k m
      → (range_to c m ≡ []) × (range_above c m ≡ m)
  unfolding range_to range_above
  range_to-eq-nil c k [] h p = (refl, refl)
  range_to-eq-nil c k ((j, w) ∷ m) h (p, ps) = ground (arith, range_to-eq-nil c k m h ps)
