-- ===== src/Agents/Selection/Others.antt =====
-- A message leaves the choices of the other users, in src/core/pipeline/agent_command_middleware.rs.
use magiclaw.Common.{◌≡◌, refl, ap, ◌∙◌, List, Option, not, if_intro, arith}
use magiclaw.Common.Result.{Result, ok, err}
use magiclaw.Common.Text.{Text}
use magiclaw.Database.{Db, ◌>>=◌, after, pure, attempt, query, execute_intro, query_intro}
use magiclaw.Domain.Message.{MessageContent, text_content, image, file, unknown}
use magiclaw.Pipeline.Chain.{PipelineContext, PipelineError}
use magiclaw.Agents.Command.{AgentCommand, switch, switch_and_process, not_command, parse}
use magiclaw.Agents.Command as Command
use magiclaw.Agents.Selection.{
  Preference, or_none, Preferences, AgentConfig, is_of, find, replace, get, set, aliases_in_use,
  on_command, on_content, process, stored,
}
use magiclaw.Agents.Selection.Kept.{OtherUser, preference, find-replace_other}

stored-world :
    {A : Type 0} (f : A → PipelineContext) (r : Result A Text × Preferences) → (stored f r).1 ≡ r.1
stored-world f (ok a, w) = refl
stored-world f (err e, w) = refl

module _ (account_id : Text) (other ctx : PipelineContext) (apart : OtherUser ctx other) where
  abbrev Same : Preferences → Preferences → Type 0
  unfolding preference
  Same w v = preference account_id other v ≡ preference account_id other w

  set-Same :
      (agent : Text) (w : Preferences)
      → Same w
          (set ctx.message.route_key.channel.as_str account_id ctx.message.route_key.peer_id agent
            w).1
  unfolding set preference Same
  set-Same agent w =
      let c = ctx.message.route_key.channel.as_str in
      let p = ctx.message.route_key.peer_id in
      execute_intro (λ r. preference account_id other r.1 ≡ preference account_id other w)
        (λ rows. ok (replace c account_id p agent rows)) w (λ fs e. refl)
        (λ fs t e. ground (
          arith,
          e,
          find-replace_other other.message.route_key.channel.as_str account_id
              other.message.route_key.peer_id c p agent w.state apart,
        ))

  get-Same :
      (w : Preferences)
      → Same w
          (get ctx.message.route_key.channel.as_str account_id ctx.message.route_key.peer_id w).1
  unfolding get preference Same
  get-Same w =
      let f =
        find
          (is_of ctx.message.route_key.channel.as_str account_id ctx.message.route_key.peer_id) in
      let read : Db (List Preference) (Option Text) =
        attempt (query f) >>= (λ row. pure (or_none row)) in
      query_intro
        (λ r.
          preference account_id other (after (λ prepared. read) r).1
          ≡ preference account_id other w)
        (λ rows. tt) w (λ fs e. refl)
        (λ fs.
          let v : Preferences = record { state = w.state; faults = fs } in
          query_intro
            (λ r.
              preference account_id other (after (λ row. pure (or_none row)) (ok r.0, r.1)).1
              ≡ preference account_id other w)
            f v (λ gs e. refl) (λ gs. refl))

  module _ (to_lowercase : Text → Text) (config : AgentConfig) where
    on_command-Same :
        (command : AgentCommand) (w : Preferences)
        → Same w (on_command to_lowercase account_id config command ctx w).1
    unfolding on_command Same
    on_command-Same (switch agent) w =
        ap (λ v. preference account_id other v) (stored-world _ (set _ _ _ agent w))
        ∙ set-Same agent w
    on_command-Same Command.query w =
        ap (λ v. preference account_id other v) (stored-world _ (get _ _ _ w)) ∙ get-Same w
    on_command-Same (switch_and_process agent content) w =
        ap (λ v. preference account_id other v) (stored-world _ (set _ _ _ agent w))
        ∙ set-Same agent w
    on_command-Same not_command w =
        if_intro (Result PipelineContext PipelineError × Preferences) (λ r. Same w r.1)
          (not config.enable_user_preferences) _ _ (λ e. refl)
          (λ e. ap (λ v. preference account_id other v) (stored-world _ (get _ _ _ w)) ∙ get-Same w)

    on_content-Same :
        (content : MessageContent) (w : Preferences)
        → Same w (on_content to_lowercase account_id config content ctx w).1
    unfolding on_content Same
    on_content-Same (text_content t) w =
        on_command-Same (parse to_lowercase (aliases_in_use to_lowercase account_id config) t) w
    on_content-Same (image url media_id) w = refl
    on_content-Same (file url name size) w = refl
    on_content-Same unknown w = refl

-- Whatever a message says, and whether or not the database fails, the preference of a user with
-- another channel or another peer stays as it is.
pub process-others :
    (to_lowercase : Text → Text) (account_id : Text) (config : AgentConfig)
    (other ctx : PipelineContext) (w : Preferences)
    → OtherUser ctx other
    → preference account_id other (process to_lowercase account_id config ctx w).1
      ≡ preference account_id other w
unfolding process Same
process-others to_lowercase account_id config other ctx w apart =
    on_content-Same account_id other ctx apart to_lowercase config ctx.message.content w
