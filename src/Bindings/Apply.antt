-- ===== src/Bindings/Apply.antt =====
-- What `apply_binding_record` of src/application/binding.rs leaves in the tables.
use magiclaw.Common.{Bool-cases, inl, inr, ◌≡◌, refl, false, [], arith, list_eq, nat_eq}
use magiclaw.Common.Int.{ℤ}
use magiclaw.Common.Result.{Result, ok, err}
use magiclaw.Common.Text.{Text, text, trim}
use magiclaw.Database.{
  World, Db, pure, bind_ok, execute_ok, execute_runs, with_prefix, execute, ◌>>=◌,
}
use magiclaw.Bindings.{
  BindingImportRecord, Tables, is_blank, target_id, target, validate, source_of, put_project,
  ensure_project, upsert_delivery_target, put_target, put_binding, upsert_binding,
  apply_binding_record,
}

module _ (conflict : Text) (ts : ℤ) (r : BindingImportRecord) where
  abbrev pub key : Text
  key = trim r.project_key

  abbrev pub id : Text
  id = target_id (target r)

  ensure_runs :
      (w : World Tables) (t : Tables)
      → w.faults ≡ []
      → is_blank r.project_key ≡ false
      → put_project ts key r.project_name w.state ≡ ok t
      → ensure_project ts r.project_key r.project_name w
        ≡ (ok tt, record { state = t; faults = [] })
  unfolding ensure_project
  ensure_runs w t none_left keyed e =
      rw keyed (execute_runs (text "ensure_project failed: ") _ w t none_left e)

  target_runs :
      (w : World Tables) (t : Tables)
      → w.faults ≡ []
      → validate (target r) ≡ ok tt
      → put_target conflict ts (target r) w.state ≡ ok t
      → upsert_delivery_target conflict ts (target r) w ≡ (ok id, record { state = t; faults = [] })
  unfolding upsert_delivery_target
  target_runs w t none_left valid e =
      let ran =
        execute_runs (text "upsert_delivery_target failed: ") (put_target conflict ts (target r)) w
          t none_left e in
      ground (arith, valid, ran)

  binding_runs :
      (w : World Tables) (t : Tables)
      → w.faults ≡ []
      → put_binding conflict ts (trim key) id (trim (source_of r)) w.state ≡ ok t
      → upsert_binding conflict ts key id (source_of r) w
        ≡ (ok tt, record { state = t; faults = [] })
  unfolding upsert_binding
  binding_runs w t none_left e = execute_runs (text "upsert_binding failed: ") _ w t none_left e

  -- Without a fault, where the three statements succeed one after the other.
  pub apply_runs :
      (w : World Tables) (t u v : Tables)
      → w.faults ≡ []
      → is_blank r.project_key ≡ false
      → validate (target r) ≡ ok tt
      → put_project ts key r.project_name w.state ≡ ok t
      → put_target conflict ts (target r) t ≡ ok u
      → put_binding conflict ts (trim key) id (trim (source_of r)) u ≡ ok v
      → apply_binding_record conflict ts r w ≡ (ok tt, record { state = v; faults = [] })
  unfolding apply_binding_record
  apply_runs w t u v none_left keyed valid e₁ e₂ e₃ = ground (
    arith,
    keyed,
    ensure_runs w t none_left keyed e₁,
    target_runs (record { state = t; faults = [] }) u refl valid e₂,
    binding_runs (record { state = u; faults = [] }) v refl e₃,
  )

  -- An application that succeeds has run the three statements.
  pub record Applied (w v : World Tables) : Type 0 where
    pub keyed : is_blank r.project_key ≡ false
    pub valid : validate (target r) ≡ ok tt
    pub first : Tables
    pub second : Tables
    pub put_first : put_project ts key r.project_name w.state ≡ ok first
    pub put_second : put_target conflict ts (target r) first ≡ ok second
    pub put_third : put_binding conflict ts (trim key) id (trim (source_of r)) second ≡ ok v.state

  ensure_ok :
      (w v : World Tables)
      → is_blank r.project_key ≡ false
      → ensure_project ts r.project_key r.project_name w ≡ (ok tt, v)
      → put_project ts key r.project_name w.state ≡ ok v.state
  unfolding ensure_project
  ensure_ok w v keyed h =
      execute_ok (text "ensure_project failed: ") (put_project ts key r.project_name) w v
        (ground (arith, keyed, h))

  target_ok :
      (w v : World Tables) (i : Text)
      → upsert_delivery_target conflict ts (target r) w ≡ (ok i, v)
      → (validate (target r) ≡ ok tt)
        × (put_target conflict ts (target r) w.state ≡ ok v.state)
        × (i ≡ id)
  unfolding upsert_delivery_target
  target_ok w v i h = go (validate (target r)) refl
    where
      m : Db Tables Unit
      m =
          with_prefix (text "upsert_delivery_target failed: ")
            (execute (put_target conflict ts (target r)))

      go :
          (q : Result Unit Text)
          → validate (target r) ≡ q
          → (validate (target r) ≡ ok tt)
            × (put_target conflict ts (target r) w.state ≡ ok v.state)
            × (i ≡ id)
      go (err x) e = absurd (ground (arith, e, h))
      go (ok u) e =
          let (a, x, ran, same) = bind_ok m (λ a. pure id) w v i (ground (arith, e, h)) in
          let done =
            execute_ok (text "upsert_delivery_target failed: ") (put_target conflict ts (target r))
              w x ran in
          (e, cc (done, same), cc same)

  pub apply_ok :
      (w v : World Tables) → apply_binding_record conflict ts r w ≡ (ok tt, v) → Applied w v
  unfolding apply_binding_record upsert_binding
  apply_ok w v h = elim (Bool-cases (is_blank r.project_key)) [
    | inl blank ↦ absurd (ground (arith, blank, h))
    | inr keyed ↦
        (let (a, x, ran, rest) =
            bind_ok (ensure_project ts r.project_key r.project_name)
              (λ a.
                upsert_delivery_target conflict ts (target r)
                >>= (λ i. upsert_binding conflict ts key i (source_of r)))
              w v tt (ground (arith, keyed, h)) in
          let (i, y, ran₂, rest₂) =
            bind_ok (upsert_delivery_target conflict ts (target r))
              (λ i. upsert_binding conflict ts key i (source_of r)) x v tt rest in
          let (valid, second, same) = target_ok x y i ran₂ in
          record {
            keyed = keyed;
            valid = valid;
            first = x.state;
            second = y.state;
            put_first = ensure_ok w x keyed ran;
            put_second = second;
            put_third =
                execute_ok (text "upsert_binding failed: ")
                  (put_binding conflict ts (trim key) id (trim (source_of r))) y v
                  (cc (rest₂, same));
          })
  ]
