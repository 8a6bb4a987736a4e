-- ===== src/Database.antt =====
-- The pool of src/infrastructure/db.rs as its callers see it: a call runs a closure on the tables,
-- or fails with a message that `faults` has for it; past the end of `faults` no call fails.
pub mod Upsert
pub mod Quiet
pub mod Holds
use magiclaw.Common.{arith, ℕ, ◌≡◌, refl, ◌∙◌, Option, none, some, List, [], ◌∷◌, ◌++◌}
use magiclaw.Common.Result.{Result, ok, err}
use magiclaw.Common.Text.{Text}

pub record World (S : Type 0) : Type 0 where
  pub state : S
  pub faults : List (Option Text)

abbrev pub Db : Type 0 → Type 0 → Type 0
Db S A = World S → Result A Text × World S

module _ {S : Type 0} where
  abbrev pub pure : {A : Type 0} → A → Db S A
  pure a w = (ok a, w)

  abbrev pub fail : {A : Type 0} → Text → Db S A
  fail e w = (err e, w)

  abbrev pub after :
      {A B : Type 0} → (A → Db S B) → Result A Text × World S → Result B Text × World S
  after f (ok a, w) = f a w
  after f (err e, w) = (err e, w)

  infixl 5 ◌>>=◌
  abbrev pub ◌>>=◌ : {A B : Type 0} → Db S A → (A → Db S B) → Db S B
  (m >>= f) w = after f (m w)

  -- A result that is matched on, in place of `?`.
  abbrev pub attempt : {A : Type 0} → Db S A → Db S (Result A Text)
  attempt m w = (ok (m w).0, (m w).1)

  -- `Result::map_err(|e| format!("...: {}", e))`.
  abbrev pub context_error : {A : Type 0} → Text → Result A Text × World S → Result A Text × World S
  context_error prefix (ok a, w) = (ok a, w)
  context_error prefix (err e, w) = (err (prefix ++ e), w)

  abbrev pub with_prefix : {A : Type 0} → Text → Db S A → Db S A
  with_prefix prefix m w = context_error prefix (m w)

  abbrev on_state :
      {A : Type 0} → List (Option Text) → S → Result (A × S) Text → Result A Text × World S
  on_state faults s (ok (a, t)) = (ok a, record { state = t; faults = faults })
  on_state faults s (err e) = (err e, record { state = s; faults = faults })

  abbrev with_conn :
      {A : Type 0} → (S → Result (A × S) Text) → S → List (Option Text) → Result A Text × World S
  with_conn f s [] = on_state [] s (f s)
  with_conn f s (none ∷ faults) = on_state faults s (f s)
  with_conn f s (some e ∷ faults) = (err e, record { state = s; faults = faults })

  -- `db.execute`, whose closure may find a constraint violated.
  unfoldable pub execute : (S → Result S Text) → Db S Unit
  execute f w = with_conn (λ s. elim (f s) [ ok t ↦ ok (tt, t) | err e ↦ err e ]) w.state w.faults

  -- `db.query`.
  unfoldable pub query : {A : Type 0} → (S → A) → Db S A
  query f w = with_conn (λ s. ok (f s, s)) w.state w.faults

  -- What a call may answer: its closure's answer, or a fault that changes nothing.
  pub execute_intro :
      (P : Result Unit Text × World S → Type 0) (f : S → Result S Text) (w : World S)
      → ((fs : List (Option Text)) (e : Text) → P (err e, record { state = w.state; faults = fs }))
      → ((fs : List (Option Text)) (t : S)
          → f w.state ≡ ok t
          → P (ok tt, record { state = t; faults = fs }))
      → P (execute f w)
  unfolding execute
  execute_intro P f w refused done = go w.faults (f w.state) refl
    where
      go :
          (fs : List (Option Text)) (r : Result S Text)
          → f w.state ≡ r
          → P (with_conn (λ s. elim r [ ok t ↦ ok (tt, t) | err e ↦ err e ]) w.state fs)
      go [] (ok t) e = done [] t e
      go [] (err x) e = refused [] x
      go (none ∷ fs) (ok t) e = done fs t e
      go (none ∷ fs) (err x) e = refused fs x
      go (some x ∷ fs) r e = refused fs x

  pub query_intro :
      {A : Type 0} (P : Result A Text × World S → Type 0) (f : S → A) (w : World S)
      → ((fs : List (Option Text)) (e : Text) → P (err e, record { state = w.state; faults = fs }))
      → ((fs : List (Option Text)) → P (ok (f w.state), record { state = w.state; faults = fs }))
      → P (query f w)
  unfolding query
  query_intro P f w refused done = go w.faults
    where
      go : (fs : List (Option Text)) → P (with_conn (λ s. ok (f s, s)) w.state fs)
      go [] = done []
      go (none ∷ fs) = done fs
      go (some x ∷ fs) = refused fs x

  pub context_intro :
      {A : Type 0} (P : Result A Text × World S → Type 0) (prefix : Text) (m : Db S A) (w : World S)
      → ((a : A) (v : World S) → m w ≡ (ok a, v) → P (ok a, v))
      → ((e : Text) (v : World S) → m w ≡ (err e, v) → P (err (prefix ++ e), v))
      → P (with_prefix prefix m w)
  context_intro {A = A} P prefix m w done refused = go (m w) refl
    where
      go : (r : Result A Text × World S) → m w ≡ r → P (context_error prefix r)
      go (ok a, v) e = done a v e
      go (err x, v) e = refused x v e

  -- A chain that succeeds has succeeded at its first step.
  pub bind_ok :
      {A B : Type 0} (m : Db S A) (f : A → Db S B) (w v : World S) (b : B)
      → (m >>= f) w ≡ (ok b, v)
      → (a : A) × (u : World S) × (m w ≡ (ok a, u)) × (f a u ≡ (ok b, v))
  bind_ok {A = A} m f w v b h = go (m w) refl h
    where
      go :
          (r : Result A Text × World S)
          → m w ≡ r
          → after f r ≡ (ok b, v)
          → (a : A) × (u : World S) × (m w ≡ (ok a, u)) × (f a u ≡ (ok b, v))
      go (ok a, u) e k = (a, u, e, k)
      go (err x, u) e k = absurd (cc k)

  -- A statement that succeeds has run its closure.
  pub execute_ok :
      (prefix : Text) (f : S → Result S Text) (w v : World S)
      → with_prefix prefix (execute f) w ≡ (ok tt, v)
      → f w.state ≡ ok v.state
  execute_ok prefix f w v =
      execute_intro (λ r. context_error prefix r ≡ (ok tt, v) → f w.state ≡ ok v.state) f w
        (λ fs e h. absurd (cc h)) (λ fs t e h. cc (e, h))

  -- Past the end of the faults it does.
  pub execute_runs :
      (prefix : Text) (f : S → Result S Text) (w : World S) (t : S)
      → w.faults ≡ []
      → f w.state ≡ ok t
      → with_prefix prefix (execute f) w ≡ (ok tt, record { state = t; faults = [] })
  unfolding execute
  execute_runs prefix f w t none_left e = ground (arith, none_left, e)

  pub query_ok :
      {A : Type 0} (prefix : Text) (f : S → A) (w v : World S) (a : A)
      → with_prefix prefix (query f) w ≡ (ok a, v)
      → (a ≡ f w.state) × (v.state ≡ w.state)
  query_ok prefix f w v a =
      query_intro (λ r. context_error prefix r ≡ (ok a, v) → (a ≡ f w.state) × (v.state ≡ w.state))
        f w (λ fs e h. absurd (cc h)) (λ fs h. (cc h, cc h))

  pub query_runs :
      {A : Type 0} (prefix : Text) (f : S → A) (w : World S)
      → w.faults ≡ []
      → with_prefix prefix (query f) w ≡ (ok (f w.state), record { state = w.state; faults = [] })
  unfolding query
  query_runs prefix f w none_left = ground (arith, none_left)

  -- A chain of reads leaves the state as it is.
  pub bind_state :
      {A B : Type 0} (m : Db S A) (f : A → Db S B) (w : World S)
      → (m w).1.state ≡ w.state
      → ((a : A) (u : World S) → (f a u).1.state ≡ u.state)
      → ((m >>= f) w).1.state ≡ w.state
  bind_state {A = A} m f w h k = go (m w) h
    where
      go : (r : Result A Text × World S) → r.1.state ≡ w.state → (after f r).1.state ≡ w.state
      go (ok a, u) e = k a u ∙ e
      go (err x, u) e = e

  pub query_state :
      {A : Type 0} (prefix : Text) (f : S → A) (w : World S)
      → (with_prefix prefix (query f) w).1.state ≡ w.state
  query_state prefix f w =
      query_intro (λ r. (context_error prefix r).1.state ≡ w.state) f w (λ fs e. refl) (λ fs. refl)
