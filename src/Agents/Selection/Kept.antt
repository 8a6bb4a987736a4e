-- ===== src/Agents/Selection/Kept.antt =====
-- What src/core/pipeline/agent_command_middleware.rs remembers of a user's choice.
use magiclaw.Common.{
  ℕ, ◌≡◌, ◌≢◌, refl, ap, ◌∙◌, ◌⊎◌, inl, inr, true, false, Option, none, some, List, [], ◌∷◌, ◌++◌,
  arith, ==_refl, ==_cases, list_eq, nat_eq, Bool-cases,
}
use magiclaw.Common.Result.{ok}
use magiclaw.Common.Text.{Text}
use magiclaw.Database.{execute, query}
use magiclaw.Domain.Message.{text_content}
use magiclaw.Pipeline.Chain.{PipelineContext}
use magiclaw.Agents.Command.{AgentCommand, switch, switch_and_process, not_command, parse}
use magiclaw.Agents.Command as Command
use magiclaw.Agents.Selection.{
  Preference, Preferences, AgentConfig, is_of, find, remove, replace, get, set, select_agent,
  aliases_in_use, on_command, on_content, process,
}

-- The user of a message.
abbrev pub SameUser : PipelineContext → PipelineContext → Type 0
SameUser a b =
    (a.message.route_key.channel.as_str ≡ b.message.route_key.channel.as_str)
    × (a.message.route_key.peer_id ≡ b.message.route_key.peer_id)

module _ (channel scope peer : Text) where
  find-append :
      (rows : List Preference) (p : Preference)
      → is_of channel scope peer p ≡ true
      → find (is_of channel scope peer) (remove (is_of channel scope peer) rows ++ p ∷ [])
        ≡ some p.agent_name
  unfolding find remove
  find-append [] p h = ground (arith, h)
  find-append (r ∷ rows) p h = ground (arith, h, find-append rows p h)

  find-replace :
      (agent : Text) (rows : List Preference)
      → find (is_of channel scope peer) (replace channel scope peer agent rows) ≡ some agent
  unfolding replace
  find-replace agent rows =
      find-append rows _ (ground (arith, ==_refl channel, ==_refl scope, ==_refl peer))

  disjoint :
      (c p : Text) (r : Preference)
      → (c ≢ channel) ⊎ (p ≢ peer)
      → is_of c scope p r ≡ true
      → is_of channel scope peer r ≡ false
  disjoint c p r (inl ne) h = elim (==_cases r.channel channel) [
    | inl same ↦
        absurd (ne (cc (same, ((list_eq {A = ℕ}).eq_iff r.channel c).0 (ground (arith, h)))))
    | inr (apart, f) ↦ ground (arith, f)
  ]
  disjoint c p r (inr ne) h = elim (==_cases r.peer_id peer) [
    | inl same ↦
        absurd (ne (cc (same, ((list_eq {A = ℕ}).eq_iff r.peer_id p).0 (ground (arith, h)))))
    | inr (apart, f) ↦ ground (arith, f)
  ]

  find-remove_other :
      (c p : Text) (rows : List Preference) (new : Preference)
      → (c ≢ channel) ⊎ (p ≢ peer)
      → is_of c scope p new ≡ true
      → find (is_of channel scope peer) (remove (is_of c scope p) rows ++ new ∷ [])
        ≡ find (is_of channel scope peer) rows
  unfolding find remove
  find-remove_other c p [] new other h = ground (arith, disjoint c p new other h)
  find-remove_other c p (r ∷ rows) new other h = elim (Bool-cases (is_of c scope p r)) [
    | inl theirs ↦
        ground (arith, theirs, disjoint c p r other theirs, find-remove_other c p rows new other h)
    | inr mine ↦ ground (arith, mine, find-remove_other c p rows new other h)
  ]

  -- A choice of another user changes nothing.
  pub find-replace_other :
      (c p agent : Text) (rows : List Preference)
      → (c ≢ channel) ⊎ (p ≢ peer)
      → find (is_of channel scope peer) (replace c scope p agent rows)
        ≡ find (is_of channel scope peer) rows
  unfolding replace
  find-replace_other c p agent rows other =
      find-remove_other c p rows _ other (ground (arith, ==_refl c, ==_refl scope, ==_refl p))

-- The preference of the user of a message.
unfoldable pub preference : (account_id : Text) → PipelineContext → Preferences → Option Text
unfolding find
preference account_id ctx w =
    find (is_of ctx.message.route_key.channel.as_str account_id ctx.message.route_key.peer_id)
      w.state

-- The agent that a command names.
abbrev pub chosen : AgentCommand → Option Text
chosen (switch agent) = some agent
chosen (switch_and_process agent content) = some agent
chosen Command.query = none
chosen not_command = none

abbrev pub OtherUser : PipelineContext → PipelineContext → Type 0
OtherUser a b =
    (a.message.route_key.channel.as_str ≢ b.message.route_key.channel.as_str)
    ⊎ (a.message.route_key.peer_id ≢ b.message.route_key.peer_id)

set_runs :
    (channel scope peer agent : Text) (w : Preferences)
    → w.faults ≡ []
    → set channel scope peer agent w
      ≡ (ok tt, record { state = replace channel scope peer agent w.state; faults = [] })
unfolding set execute
set_runs channel scope peer agent w none_left = ground (arith, none_left)

get_runs :
    (channel scope peer : Text) (w : Preferences)
    → w.faults ≡ []
    → get channel scope peer w
      ≡ (ok (find (is_of channel scope peer) w.state), record { state = w.state; faults = [] })
unfolding get query
get_runs channel scope peer w none_left = ground (arith, none_left)

-- The rows that a choice leaves.
abbrev rows_after : Text → Text → PipelineContext → Preferences → Preferences
unfolding replace
rows_after account_id agent ctx w = record {
  state =
      replace ctx.message.route_key.channel.as_str account_id ctx.message.route_key.peer_id agent
        w.state;
  faults = [];
}

module _ (to_lowercase : Text → Text) (account_id : Text) (config : AgentConfig) where
  -- The command that the step reads.
  unfoldable pub command_of : Text → AgentCommand
  unfolding parse aliases_in_use
  command_of t = parse to_lowercase (aliases_in_use to_lowercase account_id config) t

  on_command-chosen :
      (agent : Text) (command : AgentCommand) (ctx : PipelineContext) (w : Preferences)
      → w.faults ≡ []
      → chosen command ≡ some agent
      → (on_command to_lowercase account_id config command ctx w).1
        ≡ rows_after account_id agent ctx w
  unfolding on_command rows_after
  on_command-chosen agent (switch a) ctx w none_left e =
      let same : a ≡ agent = cc e in
      ground (
        arith,
        same,
        set_runs ctx.message.route_key.channel.as_str account_id ctx.message.route_key.peer_id a w
            none_left,
      )
  on_command-chosen agent (switch_and_process a content) ctx w none_left e =
      let same : a ≡ agent = cc e in
      ground (
        arith,
        same,
        set_runs ctx.message.route_key.channel.as_str account_id ctx.message.route_key.peer_id a w
            none_left,
      )
  on_command-chosen agent Command.query ctx w none_left e = absurd (cc e)
  on_command-chosen agent not_command ctx w none_left e = absurd (cc e)

  kept_faults :
      (agent : Text) (first : PipelineContext) (w : Preferences)
      → (rows_after account_id agent first w).faults ≡ []
  unfolding rows_after
  kept_faults agent first w = refl

  found_after :
      (agent : Text) (first second : PipelineContext) (w : Preferences)
      → SameUser second first
      → find
          (is_of second.message.route_key.channel.as_str account_id
            second.message.route_key.peer_id)
          (rows_after account_id agent first w).state
        ≡ some agent
  unfolding rows_after
  found_after agent first second w (channel, peer) =
      ap
        (λ c. find (is_of c account_id second.message.route_key.peer_id) (
          replace first.message.route_key.channel.as_str account_id first.message.route_key.peer_id
            agent w.state))
        channel
      ∙ ap
          (λ p. find (is_of first.message.route_key.channel.as_str account_id p) (
            replace first.message.route_key.channel.as_str account_id
              first.message.route_key.peer_id agent w.state))
          peer
      ∙ find-replace first.message.route_key.channel.as_str account_id
          first.message.route_key.peer_id agent w.state

  process_text :
      (t : Text) (ctx : PipelineContext) (w : Preferences)
      → ctx.message.content ≡ text_content t
      → process to_lowercase account_id config ctx w
        ≡ on_command to_lowercase account_id config (command_of t) ctx w
  unfolding process on_content command_of
  process_text t ctx w e = ap (λ c. on_content to_lowercase account_id config c ctx w) e

  on_command-preferred :
      (agent : Text) (ctx : PipelineContext) (w : Preferences)
      → w.faults ≡ []
      → config.enable_user_preferences ≡ true
      → find
          (is_of ctx.message.route_key.channel.as_str account_id ctx.message.route_key.peer_id)
          w.state
        ≡ some agent
      → (on_command to_lowercase account_id config not_command ctx w).0
        ≡ ok (select_agent agent ctx)
  unfolding on_command
  on_command-preferred agent ctx w none_left on found = ground (
    arith,
    on,
    found,
    get_runs ctx.message.route_key.channel.as_str account_id ctx.message.route_key.peer_id w
        none_left,
  )

  -- While the database does not fail and preferences are enabled: after a message of a user by which
  -- an agent is chosen, a message of the user that is no command is handed on with that agent.
  pub process-kept :
      (agent t₁ t₂ : Text) (first second : PipelineContext) (w : Preferences)
      → w.faults ≡ []
      → config.enable_user_preferences ≡ true
      → first.message.content ≡ text_content t₁
      → chosen (command_of t₁) ≡ some agent
      → second.message.content ≡ text_content t₂
      → command_of t₂ ≡ not_command
      → SameUser second first
      → (process to_lowercase account_id config second
          (process to_lowercase account_id config first w).1).0
        ≡ ok (select_agent agent second)
  process-kept agent t₁ t₂ first second w none_left on is_text₁ e₁ is_text₂ e₂ (channel, peer) =
      let after : (process to_lowercase account_id config first w).1
          ≡ rows_after account_id agent first w =
        ap (λ r. r.1) (process_text t₁ first w is_text₁)
        ∙ on_command-chosen agent (command_of t₁) first w none_left e₁ in
      let found = found_after agent first second w (channel, peer) in
      let last =
        on_command-preferred agent second (rows_after account_id agent first w)
          (kept_faults agent first w) on found in
      ap (λ v. (process to_lowercase account_id config second v).0) after
      ∙ ap (λ r. r.0) (process_text t₂ second (rows_after account_id agent first w) is_text₂)
      ∙ ap
          (λ k.
            (on_command to_lowercase account_id config k second
              (rows_after account_id agent first w)).0)
          e₂
      ∙ last
