-- ===== src/Routing/Dispatch.antt =====
-- src/application/route_message.rs over src/application/deduplicate.rs and
-- src/adapters/moka_dedup.rs. The cache of the crate `moka` is an interface: `get_with` tells
-- whether the closure that it was given ran.
mod Once
pub mod Examples
use magiclaw.Common.{ℕ, ◌≡◌, Bool, true, false, not, List, [], ◌∷◌, ◌++◌, if◌then◌else◌}
use magiclaw.Common.Result.{Result, ok, err}
use magiclaw.Common.Text.{Text, text}
use magiclaw.Domain.Message.{Message}
use magiclaw.Routing.Channel.{Mpsc}
use magiclaw.Routing.Routes.{ConversationStore, EnqueueError, queue_full, enqueue}

pub record Cache (K : Type 0) : Type 0 where
  pub get_with : Text → K → Bool × K
  pub contains_key : Text → K → Bool

pub data RouteOutcome : Type 0 where
  routed duplicate : RouteOutcome
  dropped : (message_id : Text) → RouteOutcome

-- `format!("{}:{}", channel, msg_id)`.
abbrev pub dedup_key : (channel msg_id : Text) → Text
dedup_key channel msg_id = channel ++ text ":" ++ msg_id

module _ {C K : Type 0} (mpsc : Mpsc C Message) (cache : Cache K) where
  open cache use {get_with}

  unfoldable pub check_and_set : (channel msg_id : Text) → K → Bool × K
  check_and_set channel msg_id k = get_with (dedup_key channel msg_id) k

  unfoldable pub deduplicate : (channel msg_id : Text) → K → Bool × K
  unfolding check_and_set
  deduplicate channel msg_id k = check_and_set channel msg_id k

  abbrev pub outcome :
      Result Unit EnqueueError × ConversationStore C → RouteOutcome × ConversationStore C
  outcome (ok u, s) = (routed, s)
  outcome (err (queue_full message_id), s) = (dropped message_id, s)

  -- At an instant, with the cache and the table of routes before and after.
  unfoldable pub route_message :
      Message → ℕ → K → ConversationStore C → RouteOutcome × K × ConversationStore C
  unfolding check_and_set enqueue
  route_message msg now k s =
      let seen = check_and_set msg.route_key.channel.as_str msg.id k in
      if not seen.0
      then (duplicate, seen.1, s)
      else (let r = outcome (enqueue mpsc msg.route_key msg now s) in (r.0, seen.1, r.1))

  -- Inbound messages, each with its instant.
  unfoldable pub route_all : List (Message × ℕ) → K × ConversationStore C → K × ConversationStore C
  unfolding route_message
  route_all [] w = w
  route_all (m ∷ ms) w = let r = route_message m.0 m.1 w.0 w.1 in route_all ms (r.1, r.2)
