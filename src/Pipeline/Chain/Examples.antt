-- ===== src/Pipeline/Chain/Examples.antt =====
-- A chain of one step that is skipped and one that is not.
use magiclaw.Common.{◌≡◌, refl, true, false, List, [], ◌∷◌, arith}
use magiclaw.Common.Result.{ok}
use magiclaw.Common.Text.{text}
use magiclaw.Pipeline.Chain.{PipelineContext, Middleware, run}
use magiclaw.Pipeline.Chain.Terminal.{KeepsShort, run_terminals, run-short_circuit}
use magiclaw.Pipeline.Reply.Examples.{question}

-- A step that counts its runs in a list.
abbrev counting : Middleware (List PipelineContext)
counting = record { name = text "ai"; is_terminal = false; process = λ ctx w. (ok ctx, ctx ∷ w) }

abbrev delivering : Middleware (List PipelineContext)
delivering = record counting { name = text "outbox"; is_terminal = true }

delivering-KeepsShort : KeepsShort delivering
delivering-KeepsShort ctx ctx' w w' terminal short h = ground (arith, short, h)

counting-KeepsShort : KeepsShort counting
counting-KeepsShort ctx ctx' w w' terminal short h = ground (arith, short, h)

abbrev limited : PipelineContext
limited = record question { short_circuit = true }

run-short_circuit_example :
    run (counting ∷ delivering ∷ []) limited []
    ≡ run_terminals (counting ∷ delivering ∷ []) limited []
run-short_circuit_example =
    run-short_circuit (counting ∷ delivering ∷ []) limited []
      (counting-KeepsShort, (delivering-KeepsShort, tt)) refl
