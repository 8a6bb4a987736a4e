-- ===== src/Push/Ids.antt =====
-- The ids of `delivery_targets`, which src/application/binding.rs writes and src/application/push.rs
-- relies on.
use magiclaw.Common.{◌≡◌, refl, ap, sym, subst, ◌++◌, Option, [], ◌∷◌, if_intro, is_empty}
use magiclaw.Common.Int.{ℤ}
use magiclaw.Common.Result.{Result, ok, err}
use magiclaw.Common.Text.{Text, text, trim}
use magiclaw.Database.{World, Db, fail, pure, ◌>>=◌, with_prefix, execute}
use magiclaw.Database.Holds.{Holds, Holds-execute, Holds-bind}
use magiclaw.Database.Upsert.{All-upsert}
use magiclaw.Bindings.{
  DeliveryTarget, BindingImportRecord, Tables, target, target_id, validate, scope_value,
  same_endpoint, activate, new_target, put_project, put_target, put_binding, ensure_project,
  upsert_delivery_target, upsert_binding, apply_binding_record, is_blank, source_of,
}
use magiclaw.Bindings.Idempotent.{put_project_ok, put_target_ok, put_binding_ok, targets_after}
use magiclaw.Push.{target_of_row, scope_of}
use magiclaw.Push.Targets.{IdsMatch}

unfoldable Matched : Tables → Type 0
unfolding IdsMatch
Matched t = IdsMatch t.targets

scope_value-scope_of : (s : Text) → scope_value (scope_of s) ≡ s
scope_value-scope_of [] = refl
scope_value-scope_of (c ∷ s) = refl

module _ (conflict : Text) (ts : ℤ) where
  put_target-Matched :
      (d : DeliveryTarget) (t u : Tables)
      → Matched t
      → put_target conflict ts d t ≡ ok u
      → Matched u
  unfolding IdsMatch targets_after target_id Matched
  put_target-Matched d t u h e =
      let new : (new_target ts d).target_id ≡ target_id (target_of_row (new_target ts d)) =
        ap
          (λ x.
            d.channel
            ++ text "|"
            ++ d.peer_id
            ++ text "|"
            ++ d.conversation_id
            ++ text "|"
            ++ d.conversation_type
            ++ text "|"
            ++ x)
          (sym (scope_value-scope_of (scope_value d.account_scope))) in
      subst Matched (sym (put_target_ok conflict ts d t u e)) (
        All-upsert (same_endpoint d) (activate ts) (new_target ts d)
          (λ r. r.target_id ≡ target_id (target_of_row r)) t.targets new (λ r s p. p) h)

  put_project-Matched :
      (key : Text) (name : Option Text) (t u : Tables)
      → Matched t
      → put_project ts key name t ≡ ok u
      → Matched u
  unfolding IdsMatch Matched
  put_project-Matched key name t u h e = subst Matched (sym (put_project_ok ts key name t u e)) h

  put_binding-Matched :
      (key id source : Text) (t u : Tables)
      → Matched t
      → put_binding conflict ts key id source t ≡ ok u
      → Matched u
  unfolding IdsMatch Matched
  put_binding-Matched key id source t u h e =
      subst Matched (sym (put_binding_ok conflict ts key id source t u e)) h

  upsert_delivery_target-Matched :
      (d : DeliveryTarget) → Holds Matched (upsert_delivery_target conflict ts d)
  unfolding upsert_delivery_target
  upsert_delivery_target-Matched d w h = go (validate d)
    where
      go :
          (q : Result Unit Text)
          → Matched
              ((elim q as (λ x. Db Tables Text) [
                | err e ↦ fail e
                | ok u ↦
                    (with_prefix
                        (text "upsert_delivery_target failed: ")
                        (execute (put_target conflict ts d))
                      >>= (λ a. pure (target_id d)))
              ])
                w).1.state
      go (err e) = h
      go (ok u) =
          Holds-bind Matched
            (with_prefix (text "upsert_delivery_target failed: ")
              (execute (put_target conflict ts d)))
            (λ a. pure (target_id d))
            (Holds-execute Matched (text "upsert_delivery_target failed: ")
              (put_target conflict ts d) (put_target-Matched d))
            (λ a v k. k) w h

  ensure_project-Matched :
      (key : Text) (name : Option Text) → Holds Matched (ensure_project ts key name)
  unfolding ensure_project
  ensure_project-Matched key name =
      if_intro (Db Tables Unit) (Holds Matched) (is_empty (trim key)) _ _ (λ e w h. h)
        (λ e.
          Holds-execute Matched (text "ensure_project failed: ") (put_project ts (trim key) name)
            (put_project-Matched (trim key) name))

  apply-Matched : (r : BindingImportRecord) → Holds Matched (apply_binding_record conflict ts r)
  unfolding apply_binding_record upsert_binding
  apply-Matched r =
      if_intro (Db Tables Unit) (Holds Matched) (is_blank r.project_key) _ _ (λ e w h. h)
        (λ e.
          Holds-bind Matched (ensure_project ts r.project_key r.project_name) _
            (ensure_project-Matched r.project_key r.project_name)
            (λ a.
              Holds-bind Matched (upsert_delivery_target conflict ts (target r)) _
                (upsert_delivery_target-Matched (target r))
                (λ id.
                  Holds-execute Matched (text "upsert_binding failed: ")
                    (put_binding conflict ts (trim (trim r.project_key)) id (trim (source_of r)))
                    (put_binding-Matched (trim (trim r.project_key)) id (trim (source_of r))))))

  -- Whether it succeeds or fails half-way, an application of a record leaves every row of
  -- `delivery_targets` with the id of its columns, where that held before.
  pub apply_binding_record-IdsMatch :
      (r : BindingImportRecord) (w : World Tables)
      → IdsMatch w.state.targets
      → IdsMatch (apply_binding_record conflict ts r w).1.state.targets
  unfolding Matched
  apply_binding_record-IdsMatch r w h = apply-Matched r w h
