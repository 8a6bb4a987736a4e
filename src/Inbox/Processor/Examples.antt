-- ===== src/Inbox/Processor/Examples.antt =====
-- A new message whose third call of the database fails.
use magiclaw.Common.{none, some, [], ◌∷◌}
use magiclaw.Common.Int.{pos}
use magiclaw.Common.Text.{text}
use magiclaw.Pipeline.Reply.Examples.{question}
use magiclaw.Inbox.Processor.{InboxWorld, process_inbound}
use magiclaw.Inbox.Processor.Once.{Outcome, process_inbound-once}

abbrev failing : InboxWorld
failing = record { rows = []; faults = none ∷ none ∷ some (text "disk I/O error") ∷ [] }

process_inbound-once_example :
    Outcome (text "m1") failing (process_inbound (pos 1) question.message (text "hi") failing)
process_inbound-once_example = process_inbound-once (pos 1) question.message (text "hi") failing
