-- ===== src/Pipeline/RateLimit/Examples.antt =====
-- Two messages of one conversation, half a second apart, at one message a second.
use magiclaw.Common.{◌≡◌, ◌<◌, ◌≤◌, refl, true, []}
use magiclaw.Pipeline.RateLimit.{elapsed_ms, process}
use magiclaw.Pipeline.RateLimit.Spacing.{serve, process-spaced}
use magiclaw.Pipeline.Reply.Examples.{question}

process-spaced_example :
    (elapsed_ms 1500000000 1000000000 < 1000
      → (process 1000 1500000000 question (serve 1000 [] (process 1000 1000000000 question []).1)).0
        ≡ record question { short_circuit = true })
    × (1000 ≤ elapsed_ms 1500000000 1000000000
        → (process 1000 1500000000 question
            (serve 1000 [] (process 1000 1000000000 question []).1)).0
          ≡ question)
process-spaced_example = process-spaced 1000 1000000000 1500000000 question question [] [] refl tt
