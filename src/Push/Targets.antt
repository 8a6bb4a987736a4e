-- ===== src/Push/Targets.antt =====
-- The targets that `resolve_item_targets` of src/application/push.rs finds for an item.
use magiclaw.Common.{
  ℕ, ◌≡◌, refl, sym, subst, ◌∙◌, true, false, ◌&&◌, List, [], ◌∷◌, All, All-append, All-weaken,
  arith, if_intro, ◌==◌, ==_refl, list_eq, nat_eq, any, is_empty, Bool-cases, inl, inr,
}
use magiclaw.Common.Result.{Result, ok, err}
use magiclaw.Common.Text.{Text, text}
use magiclaw.Database.{World, bind_ok, query_ok, ◌>>=◌}
use magiclaw.Bindings.{DeliveryTarget, TargetRow, Binding, active, target_id}
use magiclaw.Push.{
  PushItem, Store, Env, is_bound, target_of_row, targets_with_id, broadcast_rows, bound_ids,
  partition_allowed, check_allowed, check_bound, resolve_broadcast_targets, active_target_ids,
}
use magiclaw.Push.Jobs.{requested_targets, resolve_requested, resolve_item_targets}

-- An active binding of the project to the target's id.
unfoldable pub Bound : Text → List Binding → DeliveryTarget → Type 0
unfolding target_id
Bound key bindings t = any (λ b. is_bound key b && b.target_id == target_id t) bindings ≡ true

-- Every row of `delivery_targets` has the id of its columns.
unfoldable pub IdsMatch : List TargetRow → Type 0
unfolding target_id
IdsMatch rows = All (λ r. r.target_id ≡ target_id (target_of_row r)) rows

bound_ids_sound :
    (key : Text) (t : DeliveryTarget) (bindings : List Binding)
    → any (λ id. id == target_id t) (bound_ids key bindings) ≡ true
    → Bound key bindings t
unfolding bound_ids Bound
bound_ids_sound key t [] h = h
bound_ids_sound key t (b ∷ bindings) h = ground (arith, h, bound_ids_sound key t bindings)

partition_allowed_sound :
    (allowed : List Text) (targets : List DeliveryTarget)
    → All (λ t. any (λ id. id == target_id t) allowed ≡ true) (partition_allowed allowed targets).0
unfolding partition_allowed
partition_allowed_sound allowed [] = tt
partition_allowed_sound allowed (t ∷ targets) =
    let rest = partition_allowed_sound allowed targets in
    if_intro (List DeliveryTarget × List DeliveryTarget)
      (λ r. All (λ t. any (λ id. id == target_id t) allowed ≡ true) r.0)
      (any (λ id. id == target_id t) allowed) _ _ (λ e. (e, rest)) (λ e. rest)

partition_allowed-all :
    (allowed : List Text) (targets : List DeliveryTarget)
    → (partition_allowed allowed targets).1 ≡ []
    → (partition_allowed allowed targets).0 ≡ targets
unfolding partition_allowed
partition_allowed-all allowed [] h = refl
partition_allowed-all allowed (t ∷ targets) h =
    ground (arith, h, partition_allowed-all allowed targets)

module _ (key : Text) (bindings : List Binding) where
  targets_with_id-Bound :
      (id : Text) (rows : List TargetRow)
      → any (λ b. is_bound key b && b.target_id == id) bindings ≡ true
      → IdsMatch rows
      → All (Bound key bindings) (targets_with_id id rows)
  unfolding targets_with_id Bound IdsMatch
  targets_with_id-Bound id [] h k = tt
  targets_with_id-Bound id (r ∷ rows) h k =
      let rest = targets_with_id-Bound id rows h k.1 in
      if_intro (List DeliveryTarget) (All (Bound key bindings))
        (r.target_id == id && r.status == active) _ _
        (λ e. (
          subst (λ i. any (λ b. is_bound key b && b.target_id == i) bindings ≡ true)
              (sym (((list_eq {A = ℕ}).eq_iff r.target_id id).0 (ground (arith, e))) ∙ k.0) h,
          rest,
        ))
        (λ e. rest)

  broadcast_rows-Bound :
      (rows : List TargetRow) (bs : List Binding)
      → ((id : Text)
          → any (λ b. is_bound key b && b.target_id == id) bs ≡ true
          → any (λ b. is_bound key b && b.target_id == id) bindings ≡ true)
      → IdsMatch rows
      → All (Bound key bindings) (broadcast_rows key rows bs)
  unfolding broadcast_rows
  broadcast_rows-Bound rows [] found k = tt
  broadcast_rows-Bound rows (b ∷ bs) found k =
      let rest = broadcast_rows-Bound rows bs (λ id h. found id (ground (arith, h))) k in
      if_intro (List DeliveryTarget) (All (Bound key bindings)) (is_bound key b) _ _
        (λ e.
          All-append (Bound key bindings) (targets_with_id b.target_id rows)
            (broadcast_rows key rows bs)
            (targets_with_id-Bound b.target_id rows
              (found b.target_id (ground (arith, e, ==_refl b.target_id))) k)
            rest)
        (λ e. rest)

check_bound_ok :
    (found targets : List DeliveryTarget) (w v : World Store)
    → check_bound found w ≡ (ok targets, v)
    → (targets ≡ found) × (is_empty targets ≡ false) × (v ≡ w)
check_bound_ok [] targets w v h = absurd (cc h)
check_bound_ok (t ∷ found) targets w v h = (cc h, ground (arith, h), cc h)

check_allowed_ok :
    (parts : List DeliveryTarget × List DeliveryTarget) (targets : List DeliveryTarget)
    (w v : World Store)
    → check_allowed parts w ≡ (ok targets, v)
    → (targets ≡ parts.0) × (parts.1 ≡ []) × (v ≡ w)
check_allowed_ok (valid, []) targets w v h = (cc h, refl, cc h)
check_allowed_ok (valid, t ∷ invalid) targets w v h = absurd (cc h)

-- What an item may be sent to: at least one target, each with an active binding of its id to the
-- project, and a targeted item exactly those that it asks for.
pub record Resolved (env : Env) (item : PushItem) (s : Store) (targets : List DeliveryTarget)
    : Type 0 where
  pub some_target : is_empty targets ≡ false
  pub bound : All (Bound item.project_key s.tables.bindings) targets
  pub as_requested :
      (item.mode == text "targeted") ≡ true
      → requested_targets env item.target_targets_json ≡ ok targets

resolve_broadcast-Bound :
    (key : Text) (w v : World Store) (targets : List DeliveryTarget)
    → IdsMatch w.state.tables.targets
    → (resolve_broadcast_targets key >>= check_bound) w ≡ (ok targets, v)
    → All (Bound key w.state.tables.bindings) targets
      × (is_empty targets ≡ false)
      × (v.state ≡ w.state)
unfolding resolve_broadcast_targets
resolve_broadcast-Bound key w v targets ids h =
    let (found, u, ran, rest) = bind_ok (resolve_broadcast_targets key) check_bound w v targets h in
    let (rows, same) =
      query_ok (text "resolve broadcast targets failed: ")
        (λ s. broadcast_rows key s.tables.targets s.tables.bindings) w u found ran in
    let (taken, full, kept) = check_bound_ok found targets u v rest in
    (
      subst (λ l. All (Bound key w.state.tables.bindings) l) (sym (taken ∙ rows))
          (broadcast_rows-Bound key w.state.tables.bindings w.state.tables.targets
            w.state.tables.bindings (λ id e. e) ids),
      full,
      cc (kept, same),
    )

resolve_requested-Bound :
    (env : Env) (key : Text) (q : Result (List DeliveryTarget) Text) (w v : World Store)
    (targets : List DeliveryTarget)
    → resolve_requested env key q w ≡ (ok targets, v)
    → All (Bound key w.state.tables.bindings) targets
      × (is_empty targets ≡ false)
      × (v.state ≡ w.state)
      × (q ≡ ok targets)
unfolding resolve_requested active_target_ids
resolve_requested-Bound env key (err e) w v targets h = absurd (cc h)
resolve_requested-Bound env key (ok []) w v targets h = absurd (cc h)
resolve_requested-Bound env key (ok (t ∷ asked)) w v targets h =
    let (allowed, u, ran, rest) =
      bind_ok (active_target_ids key) (λ a. check_allowed (partition_allowed a (t ∷ asked))) w v
        targets h in
    let (ids, same) =
      query_ok (text "load active target ids failed: ") (λ s. bound_ids key s.tables.bindings) w u
        allowed ran in
    let (taken, full, kept) =
      check_allowed_ok (partition_allowed allowed (t ∷ asked)) targets u v rest in
    let all_taken : targets ≡ t ∷ asked = taken ∙ partition_allowed-all allowed (t ∷ asked) full in
    (
      subst (λ l. All (Bound key w.state.tables.bindings) l) (sym taken)
          (All-weaken (λ d. any (λ id. id == target_id d) allowed ≡ true)
            (Bound key w.state.tables.bindings) (partition_allowed allowed (t ∷ asked)).0
            (λ d a.
              bound_ids_sound key d w.state.tables.bindings
                (subst (λ l. any (λ id. id == target_id d) l ≡ true) ids a))
            (partition_allowed_sound allowed (t ∷ asked))),
      rw all_taken refl,
      cc (kept, same),
      cc all_taken,
    )

-- In a store whose `delivery_targets` have the ids of their columns, where an item's targets are
-- resolved there is at least one; each has an active binding of its id to the project of the item;
-- those of a targeted item are exactly the ones that it asks for; and the store is as before.
pub resolve_item_targets-Resolved :
    (env : Env) (item : PushItem) (w v : World Store) (targets : List DeliveryTarget)
    → IdsMatch w.state.tables.targets
    → resolve_item_targets env item w ≡ (ok targets, v)
    → Resolved env item w.state targets × (v.state ≡ w.state)
unfolding resolve_item_targets
resolve_item_targets-Resolved env item w v targets ids h =
    elim (Bool-cases (item.mode == text "broadcast")) [
      | inl broadcast ↦
          (let (bound, full, same) =
              resolve_broadcast-Bound item.project_key w v targets ids
                (ground (arith, broadcast, h)) in
            (
              record {
                some_target = full;
                bound = bound;
                as_requested = λ t. absurd (
                    ground (
                      arith,
                      t,
                      ((list_eq {A = ℕ}).eq_iff item.mode (text "broadcast")).0 broadcast,
                    ));
              },
              same,
            ))
      | inr other ↦ elim (Bool-cases (item.mode == text "targeted")) [
        | inr neither ↦ absurd (ground (arith, other, neither, h))
        | inl targeted ↦
            (let (bound, full, same, asked) =
                resolve_requested-Bound env item.project_key
                  (requested_targets env item.target_targets_json) w v targets
                  (ground (arith, other, targeted, h)) in
              (record { some_target = full; bound = bound; as_requested = λ t. asked }, same))
      ]
    ]
