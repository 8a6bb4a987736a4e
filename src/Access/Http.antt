-- ===== src/Access/Http.antt =====
-- src/adapters/http_auth.rs. The handler behind the middleware is a function on the state of the
-- program, so that a theorem can say that it did not run. A header that is no text is absent.
mod Policy
mod Examples
use magiclaw.Common.{
  ℕ, Bool, true, false, ◌||◌, Option, none, some, List, [], ◌∷◌, if◌then◌else◌, ◌==◌, list_eq,
  nat_eq,
}
use magiclaw.Common.Int.{ℤ}
use magiclaw.Common.Result.{Result, ok, err}
use magiclaw.Common.Text.{Text, text}
use magiclaw.Access.Clients.{
  Codec, ClientRow, ApiClientRecord, AuthFailure, unauthorized, forbidden, authorize_bearer,
}

abbrev pub health_path : Text
health_path = text "/api/health"

abbrev pub feishu_webhook_path : Text
feishu_webhook_path = text "/api/feishu/webhook"

-- `open_to_all` is the source's `Public`.
pub data PathAuthPolicy : Type 0 where
  open_to_all : PathAuthPolicy
  scoped : Text → PathAuthPolicy
  deny : PathAuthPolicy

unfoldable pub auth_policy_for_path : Text → PathAuthPolicy
auth_policy_for_path path =
    if path == health_path || path == feishu_webhook_path
    then open_to_all
    else if path == text "/api/send"
    then scoped (text "send")
    else if path == text "/api/window_status"
    then scoped (text "window_status")
    else deny

-- What is answered: the handler's response, or a status.
pub data Response (R : Type 0) : Type 0 where
  handled : R → Response R
  refused : ℕ → Response R

module _ (c : Codec) {R W : Type 0} (next : W → R × W) where
  abbrev pub run_next : W → Response R × W
  run_next w = (handled (next w).0, (next w).1)

  abbrev pub on_authorized : Result ApiClientRecord AuthFailure → W → Response R × W
  on_authorized (ok _) w = run_next w
  on_authorized (err forbidden) w = (refused 403, w)
  on_authorized (err unauthorized) w = (refused 401, w)

  abbrev pub apply_policy : PathAuthPolicy → Option Text → ℤ → List ClientRow → W → Response R × W
  apply_policy open_to_all header now rows w = run_next w
  apply_policy (scoped scope) header now rows w =
      on_authorized (authorize_bearer c header scope now rows) w
  apply_policy deny header now rows w = (refused 401, w)

  unfoldable pub require_bearer_auth :
      (path : Text) → Option Text → ℤ → List ClientRow → W → Response R × W
  unfolding auth_policy_for_path
  require_bearer_auth path header now rows w =
      apply_policy (auth_policy_for_path path) header now rows w
