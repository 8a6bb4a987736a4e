-- ===== src/Agents/Selection.antt =====
-- src/core/pipeline/agent_command_middleware.rs over src/application/agent_preferences.rs and
-- src/adapters/sqlite_user_preference_store.rs. Of `user_agent_preferences` the columns `id` and
-- `updated_at`, which only a listing reads, are left out. The account of WeChat, which stands for
-- the scope, is a parameter.
pub mod Kept
pub mod Others
pub mod Examples
use magiclaw.Common.{
  ℕ, Bool, true, false, not, ◌&&◌, Option, none, some, List, [], ◌∷◌, ◌++◌, if◌then◌else◌, ◌==◌,
  list_eq, nat_eq, is_empty,
}
use magiclaw.Common.Result.{Result, ok, err}
use magiclaw.Common.Text.{Text, text}
use magiclaw.Database.{World, Db, ◌>>=◌, pure, attempt, execute, query}
use magiclaw.Domain.Message.{Message, MessageContent, text_content, image, file, unknown}
use magiclaw.Pipeline.Chain.{PipelineContext, PipelineError, upstream_unavailable, Middleware}
use magiclaw.Agents.Command.{AgentCommand, switch, switch_and_process, not_command, parse}
use magiclaw.Agents.Command as Command

pub record Preference : Type 0 where
  pub channel : Text
  pub account_scope : Text
  pub peer_id : Text
  pub agent_name : Text

-- `WHERE channel = ?1 AND account_scope = ?2 AND peer_id = ?3`.
abbrev pub is_of : (channel account_scope peer_id : Text) → Preference → Bool
is_of channel account_scope peer_id p =
    p.channel == channel && p.account_scope == account_scope && p.peer_id == peer_id

unfoldable pub find : (Preference → Bool) → List Preference → Option Text
find q [] = none
find q (p ∷ rows) = if q p then some p.agent_name else find q rows

-- `INSERT OR REPLACE`: the rows of the same user go.
unfoldable pub remove : (Preference → Bool) → List Preference → List Preference
remove q [] = []
remove q (p ∷ rows) = let rest = remove q rows in if q p then rest else p ∷ rest

unfoldable pub replace :
    (channel account_scope peer_id agent_name : Text) → List Preference → List Preference
unfolding remove
replace channel account_scope peer_id agent_name rows =
    remove (is_of channel account_scope peer_id) rows
    ++ record {
      channel = channel;
      account_scope = account_scope;
      peer_id = peer_id;
      agent_name = agent_name;
    }
      ∷ []

abbrev pub Preferences : Type 0
Preferences = World (List Preference)

-- `Result::ok`.
abbrev pub or_none : Result (Option Text) Text → Option Text
or_none (ok o) = o
or_none (err e) = none

-- The preparation of the query may fail; a row that cannot be read is no row.
unfoldable pub get : (channel account_scope peer_id : Text) → Db (List Preference) (Option Text)
unfolding find
get channel account_scope peer_id = do
  prepared ← query (λ rows. tt)
  row ← attempt (query (find (is_of channel account_scope peer_id)))
  pure (or_none row)

unfoldable pub set : (channel account_scope peer_id agent_name : Text) → Db (List Preference) Unit
unfolding replace
set channel account_scope peer_id agent_name =
    execute (λ rows. ok (replace channel account_scope peer_id agent_name rows))

pub record AgentConfig : Type 0 where
  pub enable_user_preferences : Bool
  pub aliases : List (Text × List Text)

unfoldable pub default_agent_aliases : List (Text × List Text)
default_agent_aliases =
    (text "claude_code", text "cc" ∷ text "claude" ∷ text "claude code" ∷ [])
    ∷ (text "codex", text "cx" ∷ text "codex" ∷ [])
    ∷ (text "openclaw", text "oc" ∷ text "openclaw" ∷ [])
    ∷ (text "hermes", text "h" ∷ text "hermes" ∷ [])
    ∷ []

abbrev pub reply : Text → PipelineContext → PipelineContext
reply response ctx = record ctx { ai_response = some response; short_circuit = true }

abbrev pub select_agent : Text → PipelineContext → PipelineContext
select_agent agent_name ctx = record ctx { user_agent_selection = some agent_name }

abbrev pub answer_query : Option Text → PipelineContext → PipelineContext
answer_query (some agent_name) ctx = reply (text "当前使用 " ++ agent_name) ctx
answer_query none ctx = reply (text "还未选择 agent，请发送 cc/cx/oc/h 或完整名称进行切换") ctx

abbrev pub prompt : Text
prompt =
    text
      "请先选择 AI agent。发送以下命令之一进行切换：\n• cc (claude code)\n• cx (codex)\n• oc (openclaw)\n• h (hermes)"

abbrev pub prefer : Option Text → PipelineContext → PipelineContext
prefer (some agent_name) ctx = select_agent agent_name ctx
prefer none ctx = reply prompt ctx

-- `store....?`: a String becomes `UpstreamUnavailable`.
abbrev pub stored :
    {A : Type 0}
    → (A → PipelineContext)
    → Result A Text × Preferences
    → Result PipelineContext PipelineError × Preferences
stored f (ok a, w) = (ok (f a), w)
stored f (err e, w) = (err (upstream_unavailable e), w)

module _ (to_lowercase : Text → Text) (account_id : Text) (config : AgentConfig) where
  unfoldable pub aliases_in_use : List (Text × List Text)
  unfolding default_agent_aliases
  aliases_in_use = if is_empty config.aliases then default_agent_aliases else config.aliases

  -- The match on the command.
  unfoldable pub on_command :
      AgentCommand
      → PipelineContext
      → Preferences
      → Result PipelineContext PipelineError × Preferences
  unfolding get set
  on_command (switch agent_name) ctx w =
      stored (λ u. reply (text "已切换到 " ++ agent_name) ctx)
        (set ctx.message.route_key.channel.as_str account_id ctx.message.route_key.peer_id
          agent_name w)
  on_command Command.query ctx w =
      stored (λ o. answer_query o ctx)
        (get ctx.message.route_key.channel.as_str account_id ctx.message.route_key.peer_id w)
  on_command (switch_and_process agent_name content) ctx w =
      stored
        (λ u.
          select_agent agent_name
            (record ctx { message = record ctx.message { content = text_content content } }))
        (set ctx.message.route_key.channel.as_str account_id ctx.message.route_key.peer_id
          agent_name w)
  on_command not_command ctx w =
      if not config.enable_user_preferences
      then (ok ctx, w)
      else stored (λ o. prefer o ctx)
          (get ctx.message.route_key.channel.as_str account_id ctx.message.route_key.peer_id w)

  -- By the content of the message.
  unfoldable pub on_content :
      MessageContent
      → PipelineContext
      → Preferences
      → Result PipelineContext PipelineError × Preferences
  unfolding on_command parse aliases_in_use
  on_content (text_content t) ctx w = on_command (parse to_lowercase aliases_in_use t) ctx w
  on_content (image url media_id) ctx w = (ok ctx, w)
  on_content (file url name size) ctx w = (ok ctx, w)
  on_content unknown ctx w = (ok ctx, w)

  unfoldable pub process :
      PipelineContext → Preferences → Result PipelineContext PipelineError × Preferences
  unfolding on_content
  process ctx w = on_content ctx.message.content ctx w

  unfoldable pub agent_command_step : Middleware Preferences
  unfolding process
  agent_command_step = record {
    name = text "agent_command";
    is_terminal = false;
    process = process;
  }
