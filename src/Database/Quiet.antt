-- ===== src/Database/Quiet.antt =====
-- Programs over the pool of src/infrastructure/db.rs while no call of it fails.
use magiclaw.Common.{◌≡◌, refl, [], arith}
use magiclaw.Common.Result.{Result, ok, err}
use magiclaw.Common.Text.{Text}
use magiclaw.Database.{World, Db, pure, ◌>>=◌, after, attempt, with_prefix, execute, query}

module _ {S : Type 0} where
  -- The program brings up no fault.
  abbrev pub Quiet : {A : Type 0} → Db S A → Type 0
  Quiet m = (w : World S) → w.faults ≡ [] → (m w).1.faults ≡ []

  -- The program succeeds.
  abbrev pub Runs : {A : Type 0} → Db S A → Type 0
  Runs {A = A} m =
      (w : World S) → w.faults ≡ [] → (a : A) × (v : World S) × (m w ≡ (ok a, v)) × (v.faults ≡ [])

  pub Quiet-execute :
      (prefix : Text) (f : S → Result S Text) → Quiet (with_prefix prefix (execute f))
  unfolding execute
  Quiet-execute prefix f w h = go (f w.state) refl
    where
      go : (r : Result S Text) → f w.state ≡ r → (with_prefix prefix (execute f) w).1.faults ≡ []
      go (ok t) e = ground (arith, h, e)
      go (err x) e = ground (arith, h, e)

  pub Quiet-query : {A : Type 0} (prefix : Text) (f : S → A) → Quiet (with_prefix prefix (query f))
  unfolding query
  Quiet-query prefix f w h = ground (arith, h)

  pub Quiet-bind :
      {A B : Type 0} (m : Db S A) (f : A → Db S B)
      → Quiet m
      → ((a : A) → Quiet (f a))
      → Quiet (m >>= f)
  Quiet-bind {A = A} m f h k w none_left = go (m w) (h w none_left)
    where
      go : (r : Result A Text × World S) → r.1.faults ≡ [] → (after f r).1.faults ≡ []
      go (ok a, u) e = k a u e
      go (err x, u) e = e

  pub Runs-execute :
      (prefix : Text) (f : S → Result S Text)
      → ((s : S) → (t : S) × (f s ≡ ok t))
      → Runs (with_prefix prefix (execute f))
  unfolding execute
  Runs-execute prefix f h w none_left =
      let (t, e) = h w.state in
      (tt, record { state = t; faults = [] }, ground (arith, none_left, e), refl)

  pub Runs-query : {A : Type 0} (prefix : Text) (f : S → A) → Runs (with_prefix prefix (query f))
  unfolding query
  Runs-query prefix f w h =
      (f w.state, record { state = w.state; faults = [] }, ground (arith, h), refl)

  pub Runs-bind :
      {A B : Type 0} (m : Db S A) (f : A → Db S B)
      → Runs m
      → ((a : A) → Runs (f a))
      → Runs (m >>= f)
  Runs-bind m f h k w none_left =
      let (a, u, ran, quiet) = h w none_left in
      let (b, v, next, still) = k a u quiet in (b, v, ground (arith, ran, next), still)

  pub Runs-attempt : {A : Type 0} (m : Db S A) → Quiet m → Runs (attempt m)
  Runs-attempt m h w none_left = ((m w).0, (m w).1, refl, h w none_left)

  pub Runs-pure : {A : Type 0} (a : A) → Runs (pure a)
  Runs-pure a w h = (a, w, refl, h)
