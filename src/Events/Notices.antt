-- ===== src/Events/Notices.antt =====
-- events/gateway.go and events/presence.go: the packets that no shard sends or reads yet.
-- A pointer is an option, a snowflake is an int64, and a field of an enumeration is an int.
use sandwich_producer.Base.{ℤ, Bool, String, List, Option}
use sandwich_producer.Events.Users.{User}
use sandwich_producer.Events.Guilds.{Guild}
use sandwich_producer.Events.Presence.{Activity}

pub record Gateway : Type 0 where
  pub url : String

pub record RequestGuildMembers : Type 0 where
  pub guild_id : ℤ
  pub query : String
  pub limit : ℤ

pub record UpdateVoiceState : Type 0 where
  pub guild_id : ℤ
  pub channel_id : ℤ
  pub self_mute : Bool
  pub self_deaf : Bool

pub record UpdateStatus : Type 0 where
  pub since : ℤ
  pub game : Option Activity
  pub status : String
  pub afk : Bool

pub record Ready (Any : Type 0) : Type 0 where
  pub version : ℤ
  pub user : Option User
  pub guilds : List (Option (Guild Any))
  pub session_id : String

abbrev pub Resumed : Type 0
Resumed = Unit

pub record PresenceUpdate : Type 0 where
  pub user : Option User
  pub roles : List ℤ
  pub game : Activity
  pub guild_id : ℤ
  pub status : String
  pub activities : List Activity

pub record TypingStart : Type 0 where
  pub channel_id : ℤ
  pub guild_id : ℤ
  pub user_id : ℤ
  pub timestamp : ℤ
