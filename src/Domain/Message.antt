-- ===== src/Domain/Message.antt =====
-- src/domain/entities/message.rs and src/domain/value_objects/route_key.rs.
use magiclaw.Common.{
  ℕ, ◌≡◌, ◌↔◌, Bool, true, false, ◌&&◌, Option, none, some, PartialEq, ◌==◌, list_eq, nat_eq, arith,
}
use magiclaw.Common.Int.{ℤ}
use magiclaw.Common.Text.{Text, text}

pub record ChannelId : Type 0 where
  pub as_str : Text

pub data ConversationType : Type 0 where
  direct group thread bot_session : ConversationType

-- `Display`.
unfoldable pub conversation_type_name : ConversationType → Text
conversation_type_name direct = text "direct"
conversation_type_name group = text "group"
conversation_type_name thread = text "thread"
conversation_type_name bot_session = text "bot_session"

pub record RouteKey : Type 0 where
  pub channel : ChannelId
  pub conversation_id : Text
  pub peer_id : Text
  pub conversation_type : ConversationType

abbrev type_beq : ConversationType → ConversationType → Bool
type_beq direct direct = true
type_beq group group = true
type_beq thread thread = true
type_beq bot_session bot_session = true
type_beq _ _ = false

-- `PartialEq`, derived: field by field.
abbrev route_key_beq : RouteKey → RouteKey → Bool
route_key_beq a b =
    a.channel.as_str == b.channel.as_str
    && a.conversation_id == b.conversation_id
    && a.peer_id == b.peer_id
    && type_beq a.conversation_type b.conversation_type

type_beq_iff : (a b : ConversationType) → (type_beq a b ≡ true) ↔ (a ≡ b)
type_beq_iff a b = ground arith

route_key_beq_sound : (a b : RouteKey) → route_key_beq a b ≡ true → a ≡ b
route_key_beq_sound a b h = ground (
  arith,
  (list_eq {A = ℕ}).eq_iff a.channel.as_str b.channel.as_str,
  (list_eq {A = ℕ}).eq_iff a.conversation_id b.conversation_id,
  (list_eq {A = ℕ}).eq_iff a.peer_id b.peer_id,
)

route_key_beq_complete : (a b : RouteKey) → a ≡ b → route_key_beq a b ≡ true
route_key_beq_complete a b h = ground (
  arith,
  (list_eq {A = ℕ}).eq_iff a.channel.as_str b.channel.as_str,
  (list_eq {A = ℕ}).eq_iff a.conversation_id b.conversation_id,
  (list_eq {A = ℕ}).eq_iff a.peer_id b.peer_id,
)

pub route_key_beq_iff : (a b : RouteKey) → (route_key_beq a b ≡ true) ↔ (a ≡ b)
route_key_beq_iff a b = (route_key_beq_sound a b, route_key_beq_complete a b)

instance abbrev pub route_key_eq : PartialEq RouteKey
route_key_eq = record { eq = route_key_beq; eq_iff = route_key_beq_iff }

pub data Direction : Type 0 where
  inbound outbound : Direction

pub data MessageContent : Type 0 where
  text_content : Text → MessageContent
  image : (url : Text) (media_id : Option Text) → MessageContent
  file : (url name : Text) (size : ℕ) → MessageContent
  unknown : MessageContent

pub data AuditMark : Type 0 where
  late_arrival : (delay_ms : ℕ) → AuditMark
  duplicate : AuditMark
  out_of_order : (expected_seq actual_seq : ℤ) → AuditMark

pub record Message : Type 0 where
  pub id : Text
  pub route_key : RouteKey
  pub sequence : Option ℤ
  pub timestamp_ms : ℤ
  pub direction : Direction
  pub content : MessageContent
  pub audit_mark : Option AuditMark

unfoldable pub new_inbound : Text → RouteKey → Option ℤ → ℤ → MessageContent → Message
new_inbound id route_key sequence timestamp_ms content = record {
  id = id;
  route_key = route_key;
  sequence = sequence;
  timestamp_ms = timestamp_ms;
  direction = inbound;
  content = content;
  audit_mark = none;
}

abbrev unwrap_or : Option ℤ → ℤ → ℤ
unwrap_or none d = d
unwrap_or (some a) d = a

-- The sequence number, or the timestamp where there is none.
unfoldable pub sort_key : Message → ℤ
sort_key m = unwrap_or m.sequence m.timestamp_ms
