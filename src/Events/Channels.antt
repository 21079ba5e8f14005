-- ===== src/Events/Channels.antt =====
-- events/channel.go. A pointer is an option, a snowflake is an int64, and a field of an enumeration is an int.
-- What an `interface{}` of a packet holds is the parameter `Any`.
use sandwich_producer.Base.{ℤ, Bool, String, List, Option}

pub record Overwrite : Type 0 where
  pub id : ℤ
  pub overwrite_type : String
  pub allow : ℤ
  pub deny : ℤ

pub record Channel (Any : Type 0) : Type 0 where
  pub id : ℤ
  pub channel_type : ℤ
  pub guild_id : ℤ
  pub position : ℤ
  pub permission_overwrites : List Overwrite
  pub name : String
  pub topic : String
  pub nsfw : Bool
  pub last_message_id : ℤ
  pub bitrate : ℤ
  pub user_limit : ℤ
  pub rate_limit_per_user : ℤ
  pub recipients : List Any
  pub icon : String
  pub owner_id : ℤ
  pub application_id : ℤ
  pub parent_id : ℤ
  pub last_pin_timestamp : String

pub record ChannelCreate (Any : Type 0) : Type 0 where
  pub channel : Option (Channel Any)

pub record ChannelUpdate (Any : Type 0) : Type 0 where
  pub channel : Option (Channel Any)

pub record ChannelDelete (Any : Type 0) : Type 0 where
  pub channel : Option (Channel Any)

pub record ChannelPinsUpdate : Type 0 where
  pub channel_id : ℤ
  pub last_pin_timestamp : String
