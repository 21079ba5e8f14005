-- ===== src/Events/Embeds.antt =====
-- events/message.go: embeds, attachments and reactions.
-- A pointer is an option, a snowflake is an int64, and a field of an enumeration is an int.
use sandwich_producer.Base.{ℤ, Bool, String, List, Option}
use sandwich_producer.Events.Users.{Emoji}

pub record EmbedFooter : Type 0 where
  pub text : String
  pub icon_url : String
  pub proxy_icon_url : String

pub record EmbedImage : Type 0 where
  pub url : String
  pub proxy_url : String
  pub height : ℤ
  pub width : ℤ

pub record EmbedThumbnail : Type 0 where
  pub url : String
  pub proxy_url : String
  pub height : ℤ
  pub width : ℤ

pub record EmbedVideo : Type 0 where
  pub url : String
  pub height : ℤ
  pub width : ℤ

pub record EmbedProvider : Type 0 where
  pub name : String
  pub url : String

pub record EmbedAuthor : Type 0 where
  pub name : String
  pub url : String
  pub icon_url : String
  pub proxy_icon_url : String

pub record EmbedField : Type 0 where
  pub name : String
  pub value : String
  pub inline : Bool

pub record Embed : Type 0 where
  pub title : String
  pub embed_type : String
  pub description : String
  pub url : String
  pub timestamp : String
  pub color : ℤ
  pub footer : EmbedFooter
  pub image : EmbedImage
  pub thumbnail : EmbedThumbnail
  pub video : EmbedVideo
  pub provider : EmbedProvider
  pub author : EmbedAuthor
  pub fields : List EmbedField

pub record Attachment : Type 0 where
  pub id : ℤ
  pub filename : String
  pub size : ℤ
  pub url : String
  pub proxy_url : String
  pub height : ℤ
  pub width : ℤ

pub record Reaction : Type 0 where
  pub count : ℤ
  pub me : Bool
  pub emoji : Option Emoji
