-- ===== src/Events/Members.antt =====
-- events/guild.go and events/voice.go: members and their voice states.
-- A pointer is an option, a snowflake is an int64, and a field of an enumeration is an int.
use sandwich_producer.Base.{ℤ, Bool, String, List, Option}
use sandwich_producer.Events.Users.{User}

pub record GuildMember : Type 0 where
  pub user : Option User
  pub nick : String
  pub roles : List ℤ
  pub joined_at : String
  pub deaf : Bool
  pub mute : Bool

pub record VoiceState : Type 0 where
  pub guild_id : ℤ
  pub channel_id : ℤ
  pub user_id : ℤ
  pub member : GuildMember
  pub session_id : String
  pub deaf : Bool
  pub mute : Bool
  pub self_deaf : Bool
  pub self_mute : Bool
  pub suppress : Bool

abbrev pub VoiceStateUpdate : Type 0
VoiceStateUpdate = VoiceState

pub record VoiceServerUpdate : Type 0 where
  pub token : String
  pub guild_id : ℤ
  pub endpoint : String
