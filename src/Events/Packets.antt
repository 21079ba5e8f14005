-- ===== src/Events/Packets.antt =====
-- events/gateway.go: the packets that a shard exchanges with the gateway, and the answer of
-- /gateway/bot. A pointer to a struct that is always set is the struct.
use sandwich_producer.Base.{ℕ, ℤ, Bool, String, List}
use sandwich_producer.Events.Presence.{Activity}

-- The session_start_limit of a /gateway/bot answer.
pub record SessionStartLimit : Type 0 where
  pub total : ℤ
  pub remaining : ℤ
  pub reset_after : ℤ
  pub max_concurrency : ℤ

pub record GatewayBot : Type 0 where
  pub url : String
  pub shards : ℤ
  pub session_start_limit : SessionStartLimit

-- `json.RawMessage` is the bytes of the field.
pub record ReceivedPayload : Type 0 where
  pub op : ℤ
  pub raw : List ℕ
  pub sequence : ℕ
  pub event_type : String

pub record IdentifyProperties : Type 0 where
  pub os : String
  pub browser : String
  pub device : String

pub record Identify : Type 0 where
  pub token : String
  pub properties : IdentifyProperties
  pub compress : Bool
  pub large_threshold : ℤ
  pub shard : ℤ × ℤ
  pub presence : Activity
  pub guild_subscriptions : Bool
  pub intents : ℤ

pub record Resume : Type 0 where
  pub token : String
  pub session_id : String
  pub seq : ℤ

pub record Hello : Type 0 where
  pub heartbeat_interval : ℤ

-- The `Data` of a SentPayload, an interface value, is one of the three that the shard sends.
pub data SentContent : Type 0 where
  identifies : Identify → SentContent
  resumes : Resume → SentContent
  beats : ℤ → SentContent

pub record SentPayload : Type 0 where
  pub op : ℕ
  pub content : SentContent
