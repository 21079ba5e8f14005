-- ===== src/Events/Enums.antt =====
-- The enumerations of events/channel.go, events/guild.go, events/message.go and events/presence.go.
use sandwich_producer.Base.{ℕ, String}

pub data ChannelType : Type 0 where
  guild_text dm guild_voice group_dm : ChannelType
  guild_category : ChannelType

unfoldable pub channel_type_code : ChannelType → ℕ
channel_type_code ChannelType.guild_text = 0
channel_type_code ChannelType.dm = 1
channel_type_code ChannelType.guild_voice = 2
channel_type_code ChannelType.group_dm = 3
channel_type_code ChannelType.guild_category = 4

pub data MessageNotificationLevel : Type 0 where
  all_messages only_mentions : MessageNotificationLevel

unfoldable pub message_notification_code : MessageNotificationLevel → ℕ
message_notification_code MessageNotificationLevel.all_messages = 0
message_notification_code MessageNotificationLevel.only_mentions = 1

pub data ExplicitContentFilterLevel : Type 0 where
  disabled members_without_roles all_members : ExplicitContentFilterLevel

unfoldable pub explicit_content_filter_code : ExplicitContentFilterLevel → ℕ
explicit_content_filter_code ExplicitContentFilterLevel.disabled = 0
explicit_content_filter_code ExplicitContentFilterLevel.members_without_roles = 1
explicit_content_filter_code ExplicitContentFilterLevel.all_members = 2

pub data MfaLevel : Type 0 where
  no_mfa elevated : MfaLevel

unfoldable pub mfa_level_code : MfaLevel → ℕ
mfa_level_code MfaLevel.no_mfa = 0
mfa_level_code MfaLevel.elevated = 1

pub data VerificationLevel : Type 0 where
  unverified low medium high : VerificationLevel
  very_high : VerificationLevel

unfoldable pub verification_level_code : VerificationLevel → ℕ
verification_level_code VerificationLevel.unverified = 0
verification_level_code VerificationLevel.low = 1
verification_level_code VerificationLevel.medium = 2
verification_level_code VerificationLevel.high = 3
verification_level_code VerificationLevel.very_high = 4

pub data MessageKind : Type 0 where
  default recipient_add recipient_remove call : MessageKind
  channel_name_change channel_icon_change channel_pinned_message guild_member_join : MessageKind

unfoldable pub message_type_code : MessageKind → ℕ
message_type_code MessageKind.default = 0
message_type_code MessageKind.recipient_add = 1
message_type_code MessageKind.recipient_remove = 2
message_type_code MessageKind.call = 3
message_type_code MessageKind.channel_name_change = 4
message_type_code MessageKind.channel_icon_change = 5
message_type_code MessageKind.channel_pinned_message = 6
message_type_code MessageKind.guild_member_join = 7

pub data MessageActivityType : Type 0 where
  join spectate listen join_request : MessageActivityType

unfoldable pub message_activity_type_code : MessageActivityType → ℕ
message_activity_type_code MessageActivityType.join = 0
message_activity_type_code MessageActivityType.spectate = 1
message_activity_type_code MessageActivityType.listen = 2
message_activity_type_code MessageActivityType.join_request = 3

pub data ActivityType : Type 0 where
  game streaming listening : ActivityType

unfoldable pub activity_type_code : ActivityType → ℕ
activity_type_code ActivityType.game = 0
activity_type_code ActivityType.streaming = 1
activity_type_code ActivityType.listening = 2

-- The statuses of a presence.
pub data PresenceStatus : Type 0 where
  idle dnd online offline : PresenceStatus

unfoldable pub presence_status_text : PresenceStatus → String
presence_status_text PresenceStatus.idle = "idle"
presence_status_text PresenceStatus.dnd = "dnd"
presence_status_text PresenceStatus.online = "online"
presence_status_text PresenceStatus.offline = "offline"

-- The statuses that a bot can set.
pub data Status : Type 0 where
  online dnd idle invisible offline : Status

unfoldable pub status_text : Status → String
status_text Status.online = "online"
status_text Status.dnd = "dnd"
status_text Status.idle = "idle"
status_text Status.invisible = "invisible"
status_text Status.offline = "offline"
