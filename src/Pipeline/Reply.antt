-- ===== src/Pipeline/Reply.antt =====
-- src/core/pipeline/formatter.rs and outbox.rs, the two terminal steps: the AI's answer becomes an
-- outbound message, and an outbound message becomes a row of the outbox. serde_json is the two
-- functions of `Json`; what a step cannot write it only logs.
mod Laws
pub mod Examples
use magiclaw.Common.{
  ℕ, Bool, true, false, Option, none, some, List, [], ◌∷◌, ◌++◌, if◌then◌else◌, nat_eq,
}
use magiclaw.Common.Int.{ℤ}
use magiclaw.Common.Result.{Result, ok, err}
use magiclaw.Common.Text.{Text, text, strip_prefix}
use magiclaw.Domain.Message.{
  Message, Direction, inbound, outbound, MessageContent, text_content, RouteKey,
}
use magiclaw.Outbox.Entry
use magiclaw.Outbox.Entry.{OutboxEntry}
use magiclaw.Outbox.Table.{insert}
use magiclaw.Pipeline.Chain.{PipelineContext}

abbrev pub prefix : Text → Text
prefix responder = text "[" ++ responder ++ text "] "

-- `starts_with` is a successful `strip_prefix`.
unfoldable pub add_responder_prefix : Text → Text → Text
add_responder_prefix response responder = elim (strip_prefix (prefix responder) response) [
  | some rest ↦ response
  | none ↦ prefix responder ++ response
]

abbrev pub responder : PipelineContext → Text
responder ctx = elim ctx.user_agent_selection [
  | some agent ↦ agent
  | none ↦ (if ctx.short_circuit then text "system" else ctx.backend)
]

unfoldable pub format : PipelineContext → PipelineContext
unfolding add_responder_prefix
format ctx = elim ctx.ai_response [
  | none ↦ ctx
  | some response ↦ record ctx {
    ai_response = none;
    message = record ctx.message {
      direction = outbound;
      content = text_content (add_responder_prefix response (responder ctx));
    };
  }
]

pub record Json : Type 0 where
  pub route_key_json : RouteKey → Result Text Text
  pub content_json : MessageContent → Result Text Text

module _ (json : Json) where
  -- The row of a reply, where both parts can be serialized.
  abbrev pub reply_entry : ℤ → Message → Option OutboxEntry
  reply_entry now m = elim (json.route_key_json m.route_key) [
    | err e ↦ none
    | ok route_key ↦ (elim (json.content_json m.content) [
      | err e ↦ none
      | ok payload ↦ some (Entry.new m.id route_key payload now)
    ])
  ]

  abbrev pub is_outbound : Direction → Bool
  is_outbound outbound = true
  is_outbound inbound = false

  -- The context goes through as it is; `written` says whether the database took the write.
  unfoldable pub submit :
      ℤ → (written : Bool) → PipelineContext → List OutboxEntry → List OutboxEntry
  submit now written ctx rows =
      if is_outbound ctx.message.direction
      then (elim (reply_entry now ctx.message) [
        | none ↦ rows
        | some e ↦ (if written then insert e rows else rows)
      ])
      else rows
