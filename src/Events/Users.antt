-- ===== src/Events/Users.antt =====
-- events/user.go, events/role.go, events/emoji.go and events/webhook.go.
-- A pointer is an option, a snowflake is an int64, and a field of an enumeration is an int.
use sandwich_producer.Base.{ℤ, Bool, String, List, Option}

pub record User : Type 0 where
  pub id : ℤ
  pub username : String
  pub discriminator : String
  pub avatar : String
  pub bot : Bool
  pub mfa_enabled : Bool
  pub locale : String
  pub verified : Bool
  pub email : String
  pub flags : ℤ
  pub premium_type : ℤ

pub record UserUpdate : Type 0 where
  pub user : Option User

pub record Role : Type 0 where
  pub id : ℤ
  pub name : String
  pub color : ℤ
  pub hoist : Bool
  pub position : ℤ
  pub permissions : ℤ
  pub managed : Bool
  pub mentionable : Bool

pub record RoleCreate : Type 0 where
  pub guild_id : ℤ
  pub role : Option Role

pub record RoleUpdate : Type 0 where
  pub guild_id : ℤ
  pub role : Option Role

pub record RoleDelete : Type 0 where
  pub guild_id : ℤ
  pub role_id : ℤ

pub record Emoji : Type 0 where
  pub id : ℤ
  pub name : String
  pub roles : List ℤ
  pub user : Option User
  pub require_colons : Bool
  pub managed : Bool
  pub animated : Bool
  pub available : Bool

pub record Webhook : Type 0 where
  pub id : ℤ
  pub guild_id : ℤ
  pub channel_id : ℤ
  pub user : User
  pub name : String
  pub avatar : String
  pub token : String

pub record WebhookUpdate : Type 0 where
  pub guild_id : ℤ
  pub channel_id : ℤ
