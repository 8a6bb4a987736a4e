-- ===== src/Pipeline/Reply/Examples.antt =====
-- A direct message on WeChat, before and after its answer.
use magiclaw.Common.{false, none, ◌++◌}
use magiclaw.Common.Int.{pos}
use magiclaw.Common.Result.{ok}
use magiclaw.Common.Text.{text}
use magiclaw.Domain.Message.{direct, inbound, outbound, text_content}
use magiclaw.Pipeline.Chain.{PipelineContext}
use magiclaw.Pipeline.Reply.{Json}

abbrev pub plain_json : Json
plain_json = record {
  route_key_json = λ k. ok (k.channel.as_str ++ text "/" ++ k.conversation_id);
  content_json = λ c. ok (text "content");
}

abbrev pub question : PipelineContext
question = record {
  message = record {
    id = text "m1";
    route_key = record {
      channel = record { as_str = text "wechat" };
      conversation_id = text "c1";
      peer_id = text "p1";
      conversation_type = direct;
    };
    sequence = none;
    timestamp_ms = pos 1;
    direction = inbound;
    content = text_content (text "hi");
    audit_mark = none;
  };
  backend = text "echo";
  ai_response = none;
  short_circuit = false;
  user_agent_selection = none;
}

abbrev answer : PipelineContext
answer = record question {
  message = record question.message {
    direction = outbound;
    content = text_content (text "[echo] hi");
  };
}
