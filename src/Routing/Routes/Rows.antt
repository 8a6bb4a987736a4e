-- ===== src/Routing/Routes/Rows.antt =====
-- Lists at an index, and the rows of the table of src/adapters/conversation_store.rs.
use magiclaw.Common.{
  ℕ, zero, suc, ◌≡◌, refl, some, List, [], ◌∷◌, ◌++◌, All, length, get_elem?, ◌⊎◌, inl, inr, subst,
}
use magiclaw.Routing.Routes.{update_at}

module _ {A : Type 0} where
  pub get-append :
      (i : ℕ) (xs ys : List A) (x : A) → get_elem? xs i ≡ some x → get_elem? (xs ++ ys) i ≡ some x
  get-append i [] ys x h = absurd (cc)
  get-append zero (y ∷ xs) ys x h = h
  get-append (suc i) (y ∷ xs) ys x h = get-append i xs ys x h

  pub get-length : (xs : List A) (x : A) → get_elem? (xs ++ x ∷ []) (length xs) ≡ some x
  get-length [] x = refl
  get-length (y ∷ xs) x = get-length xs x

  pub get-update_at :
      (i j : ℕ) (f : A → A) (xs : List A) (x : A)
      → get_elem? xs j ≡ some x
      → (get_elem? (update_at i f xs) j ≡ some x) ⊎ (get_elem? (update_at i f xs) j ≡ some (f x))
  unfolding update_at
  get-update_at i j f [] x h = absurd (cc)
  get-update_at zero zero f (y ∷ xs) x h = inr (cc)
  get-update_at zero (suc j) f (y ∷ xs) x h = inl h
  get-update_at (suc i) zero f (y ∷ xs) x h = inl h
  get-update_at (suc i) (suc j) f (y ∷ xs) x h = get-update_at i j f xs x h

  pub All-get :
      (P : A → Type 0) (i : ℕ) (xs : List A) (x : A) → All P xs → get_elem? xs i ≡ some x → P x
  All-get P i [] x h e = absurd (cc)
  All-get P zero (y ∷ xs) x h e = subst P (cc) h.0
  All-get P (suc i) (y ∷ xs) x h e = All-get P i xs x h.1 e

  pub All-update_at :
      (P : A → Type 0) (i : ℕ) (f : A → A) (xs : List A)
      → ((x : A) → get_elem? xs i ≡ some x → P x → P (f x))
      → All P xs
      → All P (update_at i f xs)
  unfolding update_at
  All-update_at P i f [] g h = tt
  All-update_at P zero f (x ∷ xs) g h = (g x refl h.0, h.1)
  All-update_at P (suc i) f (x ∷ xs) g h = (h.0, All-update_at P i f xs g h.1)
