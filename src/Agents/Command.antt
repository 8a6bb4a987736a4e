-- ===== src/Agents/Command.antt =====
-- src/core/pipeline/agent_command.rs. The map of aliases is the list of its entries in the order in
-- which it is iterated, which Rust leaves open; `to_lowercase` is the standard library's.
pub mod Longest
use magiclaw.Common.{
  ℕ, Bool, true, false, ◌||◌, Option, none, some, List, [], ◌∷◌, ◌++◌, map, if◌then◌else◌, ◌==◌,
  list_eq, nat_eq, leb, length, is_empty,
}
use magiclaw.Common.Text.{Text, text, as_bytes, strip_prefix, trim}

pub data AgentCommand : Type 0 where
  switch : (agent_name : Text) → AgentCommand
  query : AgentCommand
  switch_and_process : (agent_name content : Text) → AgentCommand
  not_command : AgentCommand

-- An agent's name and one of its aliases.
pub record Candidate : Type 0 where
  pub agent_name : Text
  pub alias : Text

-- `alias.len()`, in bytes.
unfoldable pub alias_len : Candidate → ℕ
unfolding as_bytes
alias_len c = length (as_bytes c.alias)

unfoldable pub candidates : List (Text × List Text) → List Candidate
candidates [] = []
candidates (e ∷ aliases) =
    map (λ a. record { agent_name = e.0; alias = a }) e.1 ++ candidates aliases

-- `sort_by_key(|b| Reverse(b.2))`, which is stable.
unfoldable pub insert_longest : Candidate → List Candidate → List Candidate
unfolding alias_len
insert_longest c [] = c ∷ []
insert_longest c (d ∷ ds) =
    let rest = insert_longest c ds in
    if leb (alias_len d) (alias_len c) then c ∷ d ∷ ds else d ∷ rest

unfoldable pub sort_longest : List Candidate → List Candidate
unfolding insert_longest
sort_longest [] = []
sort_longest (c ∷ cs) = insert_longest c (sort_longest cs)

-- What follows a prefix, if it is not blank.
abbrev pub with_content : Text → Option Text → Option AgentCommand
with_content name none = none
with_content name (some rest) =
    if is_empty (trim rest) then none else some (switch_and_process name (trim rest))

abbrev pub or_else : Option AgentCommand → Option AgentCommand → Option AgentCommand
or_else none b = b
or_else (some a) b = some a

-- One turn of the loop over the candidates.
unfoldable pub match_candidate : Text → Candidate → Option AgentCommand
unfolding strip_prefix
match_candidate trimmed c =
    if trimmed == c.alias || trimmed == text "/" ++ c.alias
    then some (switch c.agent_name)
    else or_else (with_content c.agent_name (strip_prefix (c.alias ++ text " ") trimmed))
        (with_content c.agent_name (strip_prefix (text "/" ++ c.alias ++ text " ") trimmed))

unfoldable pub first_match : Text → List Candidate → Option AgentCommand
unfolding match_candidate
first_match trimmed [] = none
first_match trimmed (c ∷ cs) = or_else (match_candidate trimmed c) (first_match trimmed cs)

abbrev pub or_not_command : Option AgentCommand → AgentCommand
or_not_command none = not_command
or_not_command (some c) = c

module _ (to_lowercase : Text → Text) where
  abbrev pub is_query : Text → Bool
  is_query trimmed =
      let word = to_lowercase trimmed in
      word == text "当前 agent"
      || word == text "当前agent"
      || word == text "/agent"
      || word == text "agent"

  unfoldable pub parse : List (Text × List Text) → Text → AgentCommand
  unfolding first_match sort_longest candidates
  parse aliases message =
      let trimmed = trim message in
      if is_query trimmed
      then query
      else or_not_command (first_match trimmed (sort_longest (candidates aliases)))
