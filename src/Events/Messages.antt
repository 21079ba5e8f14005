-- ===== src/Events/Messages.antt =====
-- events/message.go. A pointer is an option, a snowflake is an int64, and a field of an enumeration is an int.
-- What an `interface{}` of a packet holds is the parameter `Any`.
use sandwich_producer.Base.{ℤ, Bool, String, List, Option}
use sandwich_producer.Events.Users.{User, Emoji}
use sandwich_producer.Events.Members.{GuildMember}
use sandwich_producer.Events.Embeds.{Embed, Attachment, Reaction}

pub record MessageActivity : Type 0 where
  pub message_activity_type : ℤ
  pub party_id : String

pub record MessageApplication : Type 0 where
  pub id : ℤ
  pub cover_image : String
  pub description : String
  pub icon : String
  pub name : String

pub record Message : Type 0 where
  pub id : ℤ
  pub channel_id : ℤ
  pub guild_id : ℤ
  pub author : Option User
  pub member : Option GuildMember
  pub content : String
  pub timestamp : String
  pub edited_timestamp : String
  pub tts : Bool
  pub mention_everyone : Bool
  pub mentions : List (Option User)
  pub mention_roles : List ℤ
  pub attachments : List Attachment
  pub embeds : List Embed
  pub reactions : List Reaction
  pub nonce : ℤ
  pub pinned : Bool
  pub webhook_id : ℤ
  pub message_type : ℤ
  pub activity : MessageActivity
  pub application : MessageApplication

pub record MessageCreate : Type 0 where
  pub message : Option Message

pub record MessageUpdate : Type 0 where
  pub message : Option Message

pub record MessageDelete : Type 0 where
  pub id : ℤ
  pub channel_id : ℤ
  pub guild_id : ℤ

pub record MessageDeleteBulk : Type 0 where
  pub ids : List ℤ
  pub channel_id : ℤ
  pub guild_id : ℤ

pub record MessageReactionAdd (Any : Type 0) : Type 0 where
  pub user_id : ℤ
  pub channel_id : ℤ
  pub message_id : ℤ
  pub guild_id : ℤ
  pub emoji : Any

pub record MessageReactionRemove : Type 0 where
  pub user_id : ℤ
  pub channel_id : ℤ
  pub message_id : ℤ
  pub guild_id : ℤ
  pub emoji : Option Emoji

pub record MessageReactionRemoveAll : Type 0 where
  pub channel_id : ℤ
  pub message_id : ℤ
  pub guild_id : ℤ
