-- ===== src/Events/Guilds.antt =====
-- events/guild.go. A pointer is an option, a snowflake is an int64, and a field of an enumeration is an int.
-- What an `interface{}` of a packet holds is the parameter `Any`.
use sandwich_producer.Base.{ℤ, Bool, String, List, Option}
use sandwich_producer.Events.Users.{User, Role, Emoji}
use sandwich_producer.Events.Channels.{Channel}
use sandwich_producer.Events.Members.{GuildMember, VoiceState}
use sandwich_producer.Events.Presence.{Activity}

pub record Guild (Any : Type 0) : Type 0 where
  pub id : String
  pub name : String
  pub icon : String
  pub splash : String
  pub owner : Bool
  pub owner_id : String
  pub permissions : ℤ
  pub region : String
  pub afk_channel_id : String
  pub afk_timeout : ℤ
  pub embed_enabled : Bool
  pub embed_channel_id : String
  pub verification_level : ℤ
  pub default_message_notifications : ℤ
  pub explicit_content_filter : ℤ
  pub roles : List (Option Role)
  pub emojis : List (Option Emoji)
  pub features : List String
  pub mfa_level : ℤ
  pub application_id : String
  pub widget_enabled : Bool
  pub widget_channel_id : String
  pub system_channel_id : String
  pub joined_at : String
  pub large : Bool
  pub unavailable : Bool
  pub member_count : ℤ
  pub voice_states : List (Option VoiceState)
  pub members : List (Option GuildMember)
  pub channels : List (Option (Channel Any))
  pub presences : List (Option Activity)

pub record UnavailableGuild : Type 0 where
  pub id : ℤ
  pub unavailable : Bool

abbrev pub GuildCreate : Type 0 → Type 0
GuildCreate Any = Guild Any

abbrev pub GuildUpdate : Type 0 → Type 0
GuildUpdate Any = Guild Any

abbrev pub GuildDelete : Type 0
GuildDelete = UnavailableGuild

pub record GuildBanAdd : Type 0 where
  pub guild_id : ℤ
  pub user : Option User

pub record GuildBanRemove : Type 0 where
  pub guild_id : ℤ
  pub user : Option User

pub record GuildEmojisUpdate : Type 0 where
  pub guild_id : ℤ
  pub emojis : List (Option Emoji)

pub record GuildIntegrationsUpdate : Type 0 where
  pub guild_id : ℤ

pub record GuildMemberAdd : Type 0 where
  pub guild_member : Option GuildMember
  pub guild_id : ℤ

pub record GuildMemberRemove : Type 0 where
  pub guild_id : ℤ
  pub user : Option User

pub record GuildMemberUpdate : Type 0 where
  pub guild_id : ℤ
  pub roles : List ℤ
  pub user : Option User
  pub nick : String

pub record GuildMembersChunk : Type 0 where
  pub guild_id : ℤ
  pub members : List (Option GuildMember)

pub record GuildRoleCreate (Any : Type 0) : Type 0 where
  pub guild_id : ℤ
  pub role : Any

pub record GuildRoleUpdate : Type 0 where
  pub guild_id : ℤ
  pub role : Option Role

pub record GuildRoleDelete : Type 0 where
  pub guild_id : ℤ
  pub role_id : ℤ
