-- ===== src/Pipeline/Limited.antt =====
-- The chain from the rate limit to the outbox, as src/infrastructure/runtime.rs puts the steps of
-- src/core/pipeline together, with whatever steps stand between.
mod Examples
use magiclaw.Common.{
  ℕ, ◌<◌, ◌≡◌, refl, ap, sym, ◌∙◌, Bool, true, false, Option, none, some, List, [], ◌∷◌, ◌++◌,
  arith, if◌then◌else◌, All,
}
use magiclaw.Common.Int.{ℤ}
use magiclaw.Common.Result.{Result, ok, err}
use magiclaw.Common.Text.{Text, text}
use magiclaw.Domain.Message.{inbound}
use magiclaw.Outbox.Entry.{OutboxEntry}
use magiclaw.Pipeline.Chain.{PipelineContext, PipelineError, Middleware, run}
use magiclaw.Pipeline.RateLimit
use magiclaw.Pipeline.RateLimit.{Windows, get, window_key, elapsed_ms}
use magiclaw.Pipeline.Reply.{Json, format, submit}

pub record PipelineWorld : Type 0 where
  pub windows : Windows
  pub outbox : List OutboxEntry

abbrev pub rate_limit_step : (min_interval_ms now : ℕ) → Middleware PipelineWorld
rate_limit_step min_interval_ms now = record {
  name = text "rate_limit";
  is_terminal = false;
  process = λ ctx w. (
    ok (RateLimit.process min_interval_ms now ctx w.windows).0,
    record w { windows = (RateLimit.process min_interval_ms now ctx w.windows).1 },
  );
}

abbrev pub formatter_step : Middleware PipelineWorld
formatter_step = record {
  name = text "formatter";
  is_terminal = true;
  process = λ ctx w. (ok (format ctx), w);
}

abbrev pub outbox_step : Json → ℤ → Bool → Middleware PipelineWorld
outbox_step json now written = record {
  name = text "outbox";
  is_terminal = true;
  process = λ ctx w. (ok ctx, record w { outbox = submit json now written ctx w.outbox });
}

run-skip :
    (steps more : List (Middleware PipelineWorld)) (ctx : PipelineContext) (w : PipelineWorld)
    → All (λ s. s.is_terminal ≡ false) steps
    → ctx.short_circuit ≡ true
    → run (steps ++ more) ctx w ≡ run more ctx w
unfolding run
run-skip [] more ctx w h short = refl
run-skip (s ∷ steps) more ctx w h short =
    ground (arith, h.0, short, run-skip steps more ctx w h.1 short)

-- A message that comes too soon after another of its conversation gets no reply: none of the steps
-- up to the terminal ones runs, the outbox stays as it is, and only the window moves.
pub run-limited :
    (json : Json) (interval now last : ℕ) (at : ℤ) (written : Bool)
    (steps : List (Middleware PipelineWorld)) (ctx : PipelineContext) (w : PipelineWorld)
    → All (λ s. s.is_terminal ≡ false) steps
    → ctx.short_circuit ≡ false
    → ctx.ai_response ≡ none
    → ctx.message.direction ≡ inbound
    → get (window_key ctx.message.route_key) w.windows ≡ some last
    → elapsed_ms now last < interval
    → run
        (rate_limit_step interval now ∷ steps ++ formatter_step ∷ outbox_step json at written ∷ [])
        ctx
        w
      ≡ (
        ok (record ctx { short_circuit = true }),
        record w { windows = RateLimit.insert (window_key ctx.message.route_key) now w.windows },
      )
unfolding run RateLimit.process format submit
run-limited json interval now last at written steps ctx w plain fresh unanswered incoming seen
      close =
    ground (
      arith,
      fresh,
      unanswered,
      incoming,
      seen,
      close,
      run-skip steps (formatter_step ∷ outbox_step json at written ∷ [])
          (record ctx { short_circuit = true })
          (record w { windows = RateLimit.insert (window_key ctx.message.route_key) now w.windows })
          plain refl,
    )
