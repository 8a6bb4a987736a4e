-- ===== src/Pipeline/Chain.antt =====
-- src/core/pipeline/middleware.rs. `W` is the state behind the middleware (the windows of the rate
-- limit, the outbox, the AI backends). Of the configuration the steps read the AI backend's name,
-- `backend`; the snapshot of the conversation goes through unread and is left out.
mod Terminal
mod Examples
use magiclaw.Common.{Bool, true, false, not, ◌&&◌, Option, List, [], ◌∷◌, if◌then◌else◌}
use magiclaw.Common.Result.{Result, ok, err}
use magiclaw.Common.Text.{Text}
use magiclaw.Domain.Message.{Message}

-- `PipelineError`, of src/domain/error.rs.
pub data PipelineError : Type 0 where
  middleware_failed : (name source : Text) → PipelineError
  invalid_context : Text → PipelineError
  upstream_unavailable : Text → PipelineError
  shutdown : PipelineError

pub record PipelineContext : Type 0 where
  pub message : Message
  pub backend : Text
  pub ai_response : Option Text
  pub short_circuit : Bool
  pub user_agent_selection : Option Text

pub record Middleware (W : Type 0) : Type 0 where
  pub name : Text
  pub is_terminal : Bool
  pub process : PipelineContext → W → Result PipelineContext PipelineError × W

module _ {W : Type 0} where
  -- `step.process(ctx).await?`, and what comes after it.
  abbrev pub and_then :
      (PipelineContext → W → Result PipelineContext PipelineError × W)
      → Result PipelineContext PipelineError × W
      → Result PipelineContext PipelineError × W
  and_then rest (ok ctx, w) = rest ctx w
  and_then rest (err e, w) = (err e, w)

  unfoldable pub run :
      List (Middleware W) → PipelineContext → W → Result PipelineContext PipelineError × W
  run [] ctx w = (ok ctx, w)
  run (step ∷ steps) ctx w =
      let rest = run steps in
      if ctx.short_circuit && not step.is_terminal
      then rest ctx w
      else and_then rest (step.process ctx w)
