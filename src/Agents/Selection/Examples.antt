-- ===== src/Agents/Selection/Examples.antt =====
-- Tests: a user who chooses an agent and then writes a message.
use magiclaw.Common.{◌≡◌, ◌≢◌, refl, inr, true, [], arith}
use magiclaw.Common.Result.{ok}
use magiclaw.Common.Text.{text, trim, trim_start, trim_end, strip_prefix, as_bytes, utf8}
use magiclaw.Domain.Message.{text_content}
use magiclaw.Pipeline.Chain.{PipelineContext}
use magiclaw.Pipeline.Reply.Examples.{question}
use magiclaw.Agents.Command.{
  switch, query, not_command, alias_len, candidates, insert_longest, sort_longest, match_candidate,
  first_match, parse,
}
use magiclaw.Agents.Command.Longest.{Chosen, parse-longest}
use magiclaw.Agents.Selection.{
  AgentConfig, Preferences, default_agent_aliases, aliases_in_use, process, select_agent,
}
use magiclaw.Agents.Selection.Kept.{command_of, preference, process-kept}
use magiclaw.Agents.Selection.Others.{process-others}

abbrev config : AgentConfig
config = record { enable_user_preferences = true; aliases = [] }

abbrev choice : PipelineContext
choice = record question {
  message = record question.message { content = text_content (text "/claude code") };
}

abbrev nobody : Preferences
nobody = record { state = []; faults = [] }

abbrev wording : PipelineContext
wording = record question {
  message = record question.message { content = text_content (text "hello") };
}

named : command_of (λ t. t) (text "a1") config (text "/claude code") ≡ switch (text "claude_code")
unfolding command_of aliases_in_use default_agent_aliases parse first_match match_candidate
    sort_longest insert_longest candidates alias_len as_bytes utf8 strip_prefix trim trim_start
    trim_end
named = refl

no_command : command_of (λ t. t) (text "a1") config (text "hello") ≡ not_command
unfolding command_of aliases_in_use default_agent_aliases parse first_match match_candidate
    sort_longest insert_longest candidates alias_len as_bytes utf8 strip_prefix trim trim_start
    trim_end
no_command = refl

process-kept_example :
    (process
      (λ t. t)
      (text "a1")
      config
      wording
      (process (λ t. t) (text "a1") config choice nobody).1).0
    ≡ ok (select_agent (text "claude_code") wording)
process-kept_example =
    process-kept (λ t. t) (text "a1") config (text "claude_code") (text "/claude code")
      (text "hello") choice wording nobody refl refl refl (ground (arith, named)) refl no_command
      (refl, refl)

parsed : parse (λ t. t) default_agent_aliases (text "/claude code") ≡ switch (text "claude_code")
unfolding default_agent_aliases parse first_match match_candidate sort_longest insert_longest
    candidates alias_len as_bytes utf8 strip_prefix trim trim_start trim_end
parsed = refl

parsed-no_query : parse (λ t. t) default_agent_aliases (text "/claude code") ≢ query
parsed-no_query e = absurd (cc (parsed, e))

parsed-command : parse (λ t. t) default_agent_aliases (text "/claude code") ≢ not_command
parsed-command e = absurd (cc (parsed, e))

parse-longest_example :
    Chosen
      (trim (text "/claude code"))
      (candidates default_agent_aliases)
      (parse (λ t. t) default_agent_aliases (text "/claude code"))
parse-longest_example =
    parse-longest (λ t. t) default_agent_aliases (text "/claude code") parsed-no_query
      parsed-command

abbrev stranger : PipelineContext
stranger = record question {
  message = record question.message {
    route_key = record question.message.route_key { peer_id = text "p2" };
  };
}

process-others_example :
    preference (text "a1") stranger (process (λ t. t) (text "a1") config choice nobody).1
    ≡ preference (text "a1") stranger nobody
process-others_example =
    process-others (λ t. t) (text "a1") config stranger choice nobody
      (inr (λ e. absurd (ground (arith, e))))
