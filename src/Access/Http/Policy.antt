-- ===== src/Access/Http/Policy.antt =====
-- What gets through src/adapters/http_auth.rs.
use magiclaw.Common.{
  ==_cases, ◌≡◌, ◌≢◌, ◌⊎◌, inl, inr, refl, sym, subst, Option, List, list_eq, nat_eq,
}
use magiclaw.Common.Int.{ℤ}
use magiclaw.Common.Result.{Result, ok, err}
use magiclaw.Common.Text.{Text, text}
use magiclaw.Access.Clients.{
  Codec, ClientRow, ApiClientRecord, AuthFailure, unauthorized, forbidden, authorize_bearer,
}
use magiclaw.Access.Http.{
  open_to_all, scoped, deny, auth_policy_for_path, Response, handled, refused, on_authorized,
  require_bearer_auth,
}

-- Of all paths only the health probe and the Feishu webhook are public, and only `/api/send` and
-- `/api/window_status` have a scope, each its own; every other path is denied.
auth_policy_for_path-cases :
    (path : Text)
    → ((auth_policy_for_path path ≡ open_to_all)
        × ((path ≡ text "/api/health") ⊎ (path ≡ text "/api/feishu/webhook")))
      ⊎ (((auth_policy_for_path path ≡ scoped (text "send")) × (path ≡ text "/api/send"))
          ⊎ (((auth_policy_for_path path ≡ scoped (text "window_status"))
                × (path ≡ text "/api/window_status"))
              ⊎ ((auth_policy_for_path path ≡ deny)
                  × (path ≢ text "/api/health")
                  × (path ≢ text "/api/feishu/webhook")
                  × (path ≢ text "/api/send")
                  × (path ≢ text "/api/window_status"))))
unfolding auth_policy_for_path
auth_policy_for_path-cases path = elim (==_cases path (text "/api/health")) [
  | inl e ↦ inl (subst (λ p. auth_policy_for_path p ≡ open_to_all) (sym e) refl, inl e)
  | inr (n₁, q₁) ↦ (elim (==_cases path (text "/api/feishu/webhook")) [
    | inl e ↦ inl (subst (λ p. auth_policy_for_path p ≡ open_to_all) (sym e) refl, inr e)
    | inr (n₂, q₂) ↦ (elim (==_cases path (text "/api/send")) [
      | inl e ↦
          inr (inl (subst (λ p. auth_policy_for_path p ≡ scoped (text "send")) (sym e) refl, e))
      | inr (n₃, q₃) ↦ (elim (==_cases path (text "/api/window_status")) [
        | inl e ↦ inr (
            inr (
              inl (
                subst (λ p. auth_policy_for_path p ≡ scoped (text "window_status")) (sym e) refl,
                e,
              )))
        | inr (n₄, q₄) ↦ inr (inr (inr (rw (q₁, q₂, q₃, q₄) refl, n₁, n₂, n₃, n₄)))
      ])
    ])
  ])
]

-- A path with a scope.
abbrev pub Scope : Text → Text → Type 0
Scope path scope =
    ((path ≡ text "/api/send") × (scope ≡ text "send"))
    ⊎ ((path ≡ text "/api/window_status") × (scope ≡ text "window_status"))

module _ (c : Codec) {R W : Type 0} (next : W → R × W) where
  -- What `authorize_bearer` answers, and what is answered then.
  abbrev pub Authorized :
      (scope : Text) → Option Text → ℤ → List ClientRow → W → Response R × W → Type 0
  Authorized scope header now rows w after =
      (((r : ApiClientRecord) × (authorize_bearer c header scope now rows ≡ ok r))
        × (after ≡ (handled (next w).0, (next w).1)))
      ⊎ (((authorize_bearer c header scope now rows ≡ err unauthorized)
            × (after ≡ (refused 401, w)))
          ⊎ ((authorize_bearer c header scope now rows ≡ err forbidden)
              × (after ≡ (refused 403, w))))

  -- What a request comes to, told by its path alone.
  abbrev pub Gated : Text → Option Text → ℤ → List ClientRow → W → Response R × W → Type 0
  Gated path header now rows w after =
      (((path ≡ text "/api/health") ⊎ (path ≡ text "/api/feishu/webhook"))
        × (after ≡ (handled (next w).0, (next w).1)))
      ⊎ (((scope : Text) × Scope path scope × Authorized scope header now rows w after)
          ⊎ ((path ≢ text "/api/health")
              × (path ≢ text "/api/feishu/webhook")
              × (path ≢ text "/api/send")
              × (path ≢ text "/api/window_status")
              × (after ≡ (refused 401, w))))

  on_authorized-Authorized :
      (scope : Text) (header : Option Text) (now : ℤ) (rows : List ClientRow) (w : W)
      (answer : Result ApiClientRecord AuthFailure)
      → authorize_bearer c header scope now rows ≡ answer
      → Authorized scope header now rows w (on_authorized c next answer w)
  on_authorized-Authorized scope header now rows w (ok r) h = inl ((r, h), refl)
  on_authorized-Authorized scope header now rows w (err unauthorized) h = inr (inl (h, refl))
  on_authorized-Authorized scope header now rows w (err forbidden) h = inr (inr (h, refl))

  scoped_lem :
      (path scope : Text) (header : Option Text) (now : ℤ) (rows : List ClientRow) (w : W)
      → auth_policy_for_path path ≡ scoped scope
      → Authorized scope header now rows w (require_bearer_auth c next path header now rows w)
  unfolding require_bearer_auth
  scoped_lem path scope header now rows w e = rw e (
      on_authorized-Authorized scope header now rows w (authorize_bearer c header scope now rows)
        refl)

  -- The health probe and the Feishu webhook reach the handler without a token. A request of
  -- `/api/send` or of `/api/window_status` reaches it exactly when its header is authorized for the
  -- scope of that path; an unknown or invalid token is answered by 401 and a token without the scope
  -- by 403. Every other path is answered by 401. A request that is refused leaves the state as it
  -- was, and one that is let through runs the handler once.
  pub require_bearer_auth-Gated :
      (path : Text) (header : Option Text) (now : ℤ) (rows : List ClientRow) (w : W)
      → Gated path header now rows w (require_bearer_auth c next path header now rows w)
  unfolding require_bearer_auth
  require_bearer_auth-Gated path header now rows w = elim (auth_policy_for_path-cases path) [
    | inl (e, public) ↦ inl (public, rw e refl)
    | inr (inl (e, p)) ↦
        inr (inl (text "send", inl (p, refl), scoped_lem path _ header now rows w e))
    | inr (inr (inl (e, p))) ↦
        inr (inl (text "window_status", inr (p, refl), scoped_lem path _ header now rows w e))
    | inr (inr (inr (e, n₁, n₂, n₃, n₄))) ↦ inr (inr (n₁, n₂, n₃, n₄, rw e refl))
  ]
