-- ===== src/Push/Run/States.antt =====
-- The reads of src/application/push.rs leave the store as it is.
use magiclaw.Common.{◌≡◌, refl, List, [], ◌∷◌, if_intro, ◌==◌, list_eq, nat_eq}
use magiclaw.Common.Result.{Result, ok, err}
use magiclaw.Common.Text.{Text, text}
use magiclaw.Database.{World, Db, bind_state, query_state}
use magiclaw.Bindings.{DeliveryTarget}
use magiclaw.Push.{
  PushItem, Store, Env, resolve_broadcast_targets, active_target_ids, broadcast_rows, bound_ids,
  partition_allowed, check_allowed, check_bound,
}
use magiclaw.Push.Jobs.{resolve_item_targets, resolve_requested, requested_targets}

check_bound_state :
    (targets : List DeliveryTarget) (w : World Store) → (check_bound targets w).1.state ≡ w.state
check_bound_state [] w = refl
check_bound_state (t ∷ targets) w = refl

check_allowed_state :
    (parts : List DeliveryTarget × List DeliveryTarget) (w : World Store)
    → (check_allowed parts w).1.state ≡ w.state
check_allowed_state (valid, []) w = refl
check_allowed_state (valid, t ∷ invalid) w = refl

module _ (env : Env) where
  resolve_requested_state :
      (key : Text) (q : Result (List DeliveryTarget) Text) (w : World Store)
      → (resolve_requested env key q w).1.state ≡ w.state
  unfolding resolve_requested active_target_ids
  resolve_requested_state key (err e) w = refl
  resolve_requested_state key (ok []) w = refl
  resolve_requested_state key (ok (t ∷ targets)) w =
      bind_state (active_target_ids key) (λ a. check_allowed (partition_allowed a (t ∷ targets))) w
        (query_state (text "load active target ids failed: ") (λ s. bound_ids key s.tables.bindings)
          w)
        (λ a u. check_allowed_state (partition_allowed a (t ∷ targets)) u)

  pub resolve_item_targets_state :
      (item : PushItem) (w : World Store) → (resolve_item_targets env item w).1.state ≡ w.state
  unfolding resolve_item_targets resolve_broadcast_targets
  resolve_item_targets_state item w =
      let P : Db Store (List DeliveryTarget) → Type 0 = λ m. (m w).1.state ≡ w.state in
      if_intro (Db Store (List DeliveryTarget)) P (item.mode == text "broadcast") _ _
        (λ e.
          bind_state (resolve_broadcast_targets item.project_key) check_bound w
            (query_state (text "resolve broadcast targets failed: ")
              (λ s. broadcast_rows item.project_key s.tables.targets s.tables.bindings) w)
            (λ a u. check_bound_state a u))
        (λ e.
          if_intro (Db Store (List DeliveryTarget)) P (item.mode == text "targeted") _ _
            (λ t.
              resolve_requested_state item.project_key
                (requested_targets env item.target_targets_json) w)
            (λ n. refl))
