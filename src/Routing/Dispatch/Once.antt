-- ===== src/Routing/Dispatch/Once.antt =====
-- Which messages src/application/route_message.rs hands to the table of routes.
use magiclaw.Common.{◌≡◌, Bool, true, false, not, ◌⊎◌}
use magiclaw.Common.Result.{Result}
use magiclaw.Common.Text.{Text}
use magiclaw.Domain.Message.{Message}
use magiclaw.Routing.Channel.{Mpsc}
use magiclaw.Routing.Routes.Logs.{Appended, logs}
use magiclaw.Routing.Routes.{ConversationStore}
use magiclaw.Routing.Dispatch.{Cache, RouteOutcome, routed, duplicate, dropped, dedup_key}

-- The closure runs exactly on a miss. That the entry is there later is not promised: it expires, and
-- a full cache may not take it.
pub record CacheLaws {K : Type 0} (cache : Cache K) : Type 0 where
  pub runs_on_miss :
      (key : Text) (k : K) → (cache.get_with key k).0 ≡ not (cache.contains_key key k)

module _ {C K : Type 0} (mpsc : Mpsc C Message) (cache : Cache K) where
  abbrev pub msg_key : Message → Text
  msg_key m = dedup_key m.route_key.channel.as_str m.id

  -- By whether the cache holds the key of the message.
  abbrev pub Routed :
      Message → ConversationStore C → Bool → RouteOutcome × K × ConversationStore C → Type 0
  Routed m s true r = (r.0 ≡ duplicate) × (r.2 ≡ s)
  Routed m s false r =
      ((r.0 ≡ routed) × Appended m.route_key m (logs mpsc s) (logs mpsc r.2))
      ⊎ ((r.0 ≡ dropped m.id) × (logs mpsc r.2 ≡ logs mpsc s))
