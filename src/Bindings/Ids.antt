-- ===== src/Bindings/Ids.antt =====
-- `target_id` of src/application/binding.rs, which joins the parts of a target by `|`.
use magiclaw.Common.{sym, ◌∙◌, ℕ, ◌≡◌, ◌∷◌, ◌++◌}
use mathlib.Core.List.{append_assoc}
use magiclaw.Common.Text.{Text, Lacks, split_first}
use magiclaw.Bindings.{DeliveryTarget, target_id, scope_value}

abbrev pub bar : ℕ
bar = 124

-- No part of the target but the account's scope holds a `|`.
pub record Plain (t : DeliveryTarget) : Type 0 where
  pub channel : Lacks bar t.channel
  pub peer_id : Lacks bar t.peer_id
  pub conversation_id : Lacks bar t.conversation_id
  pub conversation_type : Lacks bar t.conversation_type

-- Two targets with the same columns in `delivery_targets`.
abbrev pub SameEndpoint : DeliveryTarget → DeliveryTarget → Type 0
SameEndpoint t u =
    (t.channel ≡ u.channel)
    × (t.peer_id ≡ u.peer_id)
    × (t.conversation_id ≡ u.conversation_id)
    × (t.conversation_type ≡ u.conversation_type)
    × (scope_value t.account_scope ≡ scope_value u.account_scope)

abbrev after_conversation : DeliveryTarget → Text
after_conversation t = t.conversation_type ++ bar ∷ scope_value t.account_scope

abbrev after_peer : DeliveryTarget → Text
after_peer t = t.conversation_id ++ bar ∷ after_conversation t

abbrev after_channel : DeliveryTarget → Text
after_channel t = t.peer_id ++ bar ∷ after_peer t

target_id-parts : (t : DeliveryTarget) → target_id t ≡ t.channel ++ bar ∷ after_channel t
unfolding target_id
target_id-parts t = simp (append_assoc)

-- Two targets of which no part but the scope holds a `|` are the same endpoint where their ids are
-- equal.
pub target_id-injective :
    (t u : DeliveryTarget) → Plain t → Plain u → target_id t ≡ target_id u → SameEndpoint t u
target_id-injective t u p q e =
    let (c, e₁) =
      split_first bar t.channel u.channel (after_channel t) (after_channel u) p.channel q.channel
        (sym (target_id-parts t) ∙ e ∙ target_id-parts u) in
    let (r, e₂) =
      split_first bar t.peer_id u.peer_id (after_peer t) (after_peer u) p.peer_id q.peer_id e₁ in
    let (v, e₃) =
      split_first bar t.conversation_id u.conversation_id (after_conversation t)
        (after_conversation u) p.conversation_id q.conversation_id e₂ in
    let (y, e₄) =
      split_first bar t.conversation_type u.conversation_type (scope_value t.account_scope)
        (scope_value u.account_scope) p.conversation_type q.conversation_type e₃ in
    (c, r, v, y, e₄)
