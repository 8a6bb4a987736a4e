-- ===== src/Bindings/Idempotent.antt =====
-- A record that src/application/binding.rs applies a second time changes nothing.
use magiclaw.Common.{
  ◌≡◌, refl, ap, ◌∙◌, Bool, true, Option, none, some, List, [], arith, ◌==◌, ==_refl, list_eq,
  nat_eq, any,
}
use magiclaw.Common.Int.{ℤ}
use magiclaw.Common.Result.{ok}
use magiclaw.Common.Text.{Text, trim}
use magiclaw.Database.{World}
use magiclaw.Database.Upsert.{upsert, upsert_keyed, any-upsert, upsert_idempotent}
use magiclaw.Bindings.{
  DeliveryTarget, BindingImportRecord, Tables, Project, TargetRow, Binding, target_id, target,
  rename, new_project, same_endpoint, activate, new_target, same_binding, rebind, new_binding,
  source_of, put_project, put_target, put_binding, apply_binding_record, name_or, explicit_name,
  scope_value,
}
use magiclaw.Bindings.Apply.{apply_ok, apply_runs}

abbrev pub has_project : Text → Project → Bool
has_project key p = p.project_key == key

name_or_twice : (x : Text) (o : Option Text) → name_or (name_or x o) o ≡ name_or x o
name_or_twice x none = refl
name_or_twice x (some n) = refl

module _ (ts : ℤ) (key : Text) (name : Option Text) where
  unfoldable pub projects_after : List Project → List Project
  unfolding upsert
  projects_after rows = upsert (has_project key) (rename ts name) (new_project ts key name) rows

  projects_after_twice :
      (rows : List Project) → projects_after (projects_after rows) ≡ projects_after rows
  unfolding projects_after
  projects_after_twice rows =
      upsert_idempotent (has_project key) (rename ts name) (new_project ts key name) (==_refl key)
        (λ p h. h)
        (λ p h.
          ap (λ n. record p { project_name = n; updated_at = ts })
            (name_or_twice p.project_name (explicit_name name)))
        (ap (λ n. record (new_project ts key name) { project_name = n })
          (name_or_twice key (explicit_name name)))
        rows

module _ (ts : ℤ) (d : DeliveryTarget) where
  pub same_new_target : same_endpoint d (new_target ts d) ≡ true
  unfolding target_id
  same_new_target = ground (
    arith,
    ==_refl d.channel,
    ==_refl d.peer_id,
    ==_refl d.conversation_id,
    ==_refl d.conversation_type,
    ==_refl (scope_value d.account_scope),
  )

  unfoldable pub targets_after : List TargetRow → List TargetRow
  unfolding upsert
  targets_after rows = upsert (same_endpoint d) (activate ts) (new_target ts d) rows

  pub any-targets_after :
      (rows : List TargetRow) → any (same_endpoint d) (targets_after rows) ≡ true
  unfolding targets_after
  any-targets_after rows =
      any-upsert (same_endpoint d) (activate ts) (new_target ts d) same_new_target (λ r h. h) rows

  targets_after_twice :
      (rows : List TargetRow) → targets_after (targets_after rows) ≡ targets_after rows
  unfolding targets_after
  targets_after_twice rows =
      upsert_idempotent (same_endpoint d) (activate ts) (new_target ts d) same_new_target (λ r h. h)
        (λ r h. refl) refl rows

module _ (ts : ℤ) (key id source : Text) where
  pub same_new_binding : same_binding key id (new_binding ts key id source) ≡ true
  same_new_binding = ground (arith, ==_refl key, ==_refl id)

  unfoldable pub bindings_after : List Binding → List Binding
  unfolding upsert
  bindings_after rows =
      upsert (same_binding key id) (rebind ts source) (new_binding ts key id source) rows

  pub any-bindings_after :
      (rows : List Binding) → any (same_binding key id) (bindings_after rows) ≡ true
  unfolding bindings_after
  any-bindings_after rows =
      any-upsert (same_binding key id) (rebind ts source) (new_binding ts key id source)
        same_new_binding (λ r h. h) rows

  bindings_after_twice :
      (rows : List Binding) → bindings_after (bindings_after rows) ≡ bindings_after rows
  unfolding bindings_after
  bindings_after_twice rows =
      upsert_idempotent (same_binding key id) (rebind ts source) (new_binding ts key id source)
        same_new_binding (λ r h. h) (λ r h. refl) refl rows

-- What the three statements leave where they succeed, and that they succeed where the row is there.
pub put_project_ok :
    (ts : ℤ) (key : Text) (name : Option Text) (t u : Tables)
    → put_project ts key name t ≡ ok u
    → u ≡ record t { projects = projects_after ts key name t.projects }
unfolding put_project projects_after
put_project_ok ts key name t u e = cc e

pub put_target_ok :
    (conflict : Text) (ts : ℤ) (d : DeliveryTarget) (t u : Tables)
    → put_target conflict ts d t ≡ ok u
    → u ≡ record t { targets = targets_after ts d t.targets }
unfolding put_target upsert_keyed targets_after
put_target_ok conflict ts d t u e = ground (arith, e)

put_target_again :
    (conflict : Text) (ts : ℤ) (d : DeliveryTarget) (t : Tables)
    → any (same_endpoint d) t.targets ≡ true
    → put_target conflict ts d t ≡ ok (record t { targets = targets_after ts d t.targets })
unfolding put_target upsert_keyed targets_after
put_target_again conflict ts d t e = ground (arith, e)

pub put_binding_ok :
    (conflict : Text) (ts : ℤ) (key id source : Text) (t u : Tables)
    → put_binding conflict ts key id source t ≡ ok u
    → u ≡ record t { bindings = bindings_after ts key id source t.bindings }
unfolding put_binding upsert_keyed bindings_after
put_binding_ok conflict ts key id source t u e = ground (arith, e)

put_binding_again :
    (conflict : Text) (ts : ℤ) (key id source : Text) (t : Tables)
    → any (same_binding key id) t.bindings ≡ true
    → put_binding conflict ts key id source t
      ≡ ok (record t { bindings = bindings_after ts key id source t.bindings })
unfolding put_binding upsert_keyed bindings_after
put_binding_again conflict ts key id source t e = ground (arith, e)

module _ (conflict : Text) (ts : ℤ) (r : BindingImportRecord) where
  abbrev binding_key : Text
  binding_key = trim (trim r.project_key)

  abbrev source : Text
  source = trim (source_of r)

  -- The tables with the rows of the record.
  unfoldable pub applied : Tables → Tables
  unfolding projects_after targets_after bindings_after
  applied t = record {
    projects = projects_after ts (trim r.project_key) r.project_name t.projects;
    targets = targets_after ts (target r) t.targets;
    bindings = bindings_after ts binding_key (target_id (target r)) source t.bindings;
  }

  pub apply_binding_record-applied :
      (w v : World Tables)
      → apply_binding_record conflict ts r w ≡ (ok tt, v)
      → v.state ≡ applied w.state
  unfolding applied
  apply_binding_record-applied w v h =
      let a = apply_ok conflict ts r w v h in
      cc (
        put_project_ok ts (trim r.project_key) r.project_name w.state a.first a.put_first,
        put_target_ok conflict ts (target r) a.first a.second a.put_second,
        put_binding_ok conflict ts binding_key (target_id (target r)) source a.second v.state
            a.put_third,
      )

  applied_again :
      (t : Tables)
      → (put_project ts (trim r.project_key) r.project_name (applied t) ≡ ok (applied t))
        × (put_target conflict ts (target r) (applied t) ≡ ok (applied t))
        × (put_binding conflict ts binding_key (target_id (target r)) source (applied t)
            ≡ ok (applied t))
  unfolding applied put_project
  applied_again t = (
    ap (λ l. ok (record (applied t) { projects = l }))
        (projects_after_twice ts (trim r.project_key) r.project_name t.projects),
    put_target_again conflict ts (target r) (applied t) (any-targets_after ts (target r) t.targets)
        ∙ ap (λ l. ok (record (applied t) { targets = l }))
            (targets_after_twice ts (target r) t.targets),
    put_binding_again conflict ts binding_key (target_id (target r)) source (applied t)
          (any-bindings_after ts binding_key (target_id (target r)) source t.bindings)
        ∙ ap (λ l. ok (record (applied t) { bindings = l }))
            (bindings_after_twice ts binding_key (target_id (target r)) source t.bindings),
  )

  -- A record that was applied, applied again at the same time by a database that does not fail, is
  -- accepted and leaves the tables as they are.
  pub apply_binding_record-idempotent :
      (w v : World Tables)
      → apply_binding_record conflict ts r w ≡ (ok tt, v)
      → v.faults ≡ []
      → apply_binding_record conflict ts r v ≡ (ok tt, v)
  apply_binding_record-idempotent w v h none_left =
      let a = apply_ok conflict ts r w v h in
      let same = apply_binding_record-applied w v h in
      let (p, t, b) = applied_again w.state in
      apply_runs conflict ts r v (applied w.state) (applied w.state) (applied w.state) none_left
        a.keyed a.valid (rw same p) t b
      ∙ cc (same, none_left)
