-- ===== src/Database/Holds.antt =====
-- What programs over the pool of src/infrastructure/db.rs preserve, also where a call fails.
use magiclaw.Common.{◌≡◌}
use magiclaw.Common.Result.{Result, ok, err}
use magiclaw.Common.Text.{Text}
use magiclaw.Database.{World, Db, ◌>>=◌, after, with_prefix, context_error, execute, execute_intro}

module _ {S : Type 0} (P : S → Type 0) where
  abbrev pub Holds : {A : Type 0} → Db S A → Type 0
  Holds m = (w : World S) → P w.state → P (m w).1.state

  pub Holds-execute :
      (prefix : Text) (f : S → Result S Text)
      → ((s t : S) → P s → f s ≡ ok t → P t)
      → Holds (with_prefix prefix (execute f))
  Holds-execute prefix f keep w h =
      execute_intro (λ r. P (context_error prefix r).1.state) f w (λ fs e. h)
        (λ fs t e. keep w.state t h e)

  pub Holds-bind :
      {A B : Type 0} (m : Db S A) (f : A → Db S B)
      → Holds m
      → ((a : A) → Holds (f a))
      → Holds (m >>= f)
  Holds-bind {A = A} m f h k w p = go (m w) (h w p)
    where
      go : (r : Result A Text × World S) → P r.1.state → P (after f r).1.state
      go (ok a, u) q = k a u q
      go (err x, u) q = q
