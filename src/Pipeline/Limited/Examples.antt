-- ===== src/Pipeline/Limited/Examples.antt =====
-- A question half a second after the last one of its conversation.
use magiclaw.Common.{◌≡◌, refl, true, [], ◌∷◌, arith}
use magiclaw.Common.Int.{pos}
use magiclaw.Common.Result.{ok}
use magiclaw.Common.Text.{text}
use magiclaw.Pipeline.Chain.{run}
use magiclaw.Pipeline.RateLimit
use magiclaw.Pipeline.RateLimit.{get, window_key}
use magiclaw.Pipeline.Limited.{
  PipelineWorld, rate_limit_step, formatter_step, outbox_step, run-limited,
}
use magiclaw.Pipeline.Reply.Examples.{plain_json, question}

abbrev busy : PipelineWorld
busy = record { windows = (text "wechat:c1", 1000000000) ∷ []; outbox = [] }

run-limited_example :
    run
      (rate_limit_step 1000 1500000000 ∷ formatter_step ∷ outbox_step plain_json (pos 2) true ∷ [])
      question
      busy
    ≡ (
      ok (record question { short_circuit = true }),
      record busy {
        windows = RateLimit.insert (window_key question.message.route_key) 1500000000 busy.windows;
      },
    )
unfolding get window_key
run-limited_example =
    run-limited plain_json 1000 1500000000 1000000000 (pos 2) true [] question busy tt refl refl
      refl refl (ground arith)
