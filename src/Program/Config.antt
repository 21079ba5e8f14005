-- ===== src/Program/Config.antt =====
-- gateway/manager.go, Configuration: the field that its tags give for each key of the configuration's
-- text, and main.go from that text on. The JSON library is an argument.
pub mod Reading
pub mod Blacklists
use sandwich_producer.Base.{
  ℤ, pos, false, String, List, [], ◌∷◌, Option, none, some, string_key, GoError, Outcome, ℕ,
}
use sandwich_producer.Events.Packets.{GatewayBot}
use sandwich_producer.Client.{Http}
use sandwich_producer.ShardGroup.{Clocks}
use sandwich_producer.Manager.{
  RedisConfiguration, NatsConfiguration, Configuration, Manager, Services,
}
use sandwich_producer.Program.{run_main}
use sandwich_producer.Program.Text.{
  Json, object, Members, no_members, member, text_of, int_of, truth_of, list_of, blacklist_of,
  activity_of, assign,
}

pub data RedisField : Type 0 where
  redis_address : RedisField
  redis_password : RedisField
  redis_database : RedisField
  redis_prefix : RedisField

pub data NatsField : Type 0 where
  nats_address : NatsField
  nats_channel : NatsField
  nats_cluster : NatsField
  nats_client : NatsField

pub data ConfigurationField : Type 0 where
  token_field : ConfigurationField
  concurrent_identifies : ConfigurationField
  max_heartbeat_failures : ConfigurationField
  autoshard : ConfigurationField
  shard_count : ConfigurationField
  cluster_count : ConfigurationField
  cluster_id : ConfigurationField
  redis_field : ConfigurationField
  nats_field : ConfigurationField
  event_blacklist_map : ConfigurationField
  event_blacklist : ConfigurationField
  produce_blacklist_map : ConfigurationField
  produce_blacklist : ConfigurationField
  compression : ConfigurationField
  large_threshold : ConfigurationField
  default_activity : ConfigurationField
  guild_subscriptions : ConfigurationField
  intents : ConfigurationField

-- The tags; a field without one goes by its name.
abbrev pub redis_tags : List (String × RedisField)
redis_tags =
    ("address", redis_address)
    ∷ ("password", redis_password)
    ∷ ("database", redis_database)
    ∷ ("prefix", redis_prefix)
    ∷ []

abbrev pub nats_tags : List (String × NatsField)
nats_tags =
    ("address", nats_address)
    ∷ ("channel", nats_channel)
    ∷ ("cluster", nats_cluster)
    ∷ ("client", nats_client)
    ∷ []

abbrev pub configuration_tags : List (String × ConfigurationField)
configuration_tags =
    ("token", token_field)
    ∷ ("concurrent_identifies", concurrent_identifies)
    ∷ ("max_heartbeat_failures", max_heartbeat_failures)
    ∷ ("autoshard", autoshard)
    ∷ ("shard_count", shard_count)
    ∷ ("cluster_count", cluster_count)
    ∷ ("cluster_id", cluster_id)
    ∷ ("redis", redis_field)
    ∷ ("nats", nats_field)
    ∷ ("EventBlacklist", event_blacklist_map)
    ∷ ("event_blacklist", event_blacklist)
    ∷ ("ProduceBlacklist", produce_blacklist_map)
    ∷ ("produce_blacklist", produce_blacklist)
    ∷ ("compression", compression)
    ∷ ("large_threshold", large_threshold)
    ∷ ("default_activity", default_activity)
    ∷ ("guild_subscriptions", guild_subscriptions)
    ∷ ("intents", intents)
    ∷ []

abbrev pub set_redis : RedisField → Json → RedisConfiguration → Option RedisConfiguration
set_redis redis_address v r = assign (text_of v) λ s. record r { address = s }
set_redis redis_password v r = assign (text_of v) λ s. record r { password = s }
set_redis redis_database v r = assign (int_of v) λ n. record r { database = n }
set_redis redis_prefix v r = assign (text_of v) λ s. record r { prefix = s }

abbrev pub set_nats : NatsField → Json → NatsConfiguration → Option NatsConfiguration
set_nats nats_address v n = assign (text_of v) λ s. record n { address = s }
set_nats nats_channel v n = assign (text_of v) λ s. record n { channel = s }
set_nats nats_cluster v n = assign (text_of v) λ s. record n { cluster_id = s }
set_nats nats_client v n = assign (text_of v) λ s. record n { client_id = s }

-- How the library finds the field for a key, by the tags.
abbrev pub Finder : Type 1
Finder = (F : Type 0) → List (String × F) → String → Option F

module _ (find : Finder) where
  -- The members of an object, in their order, written to a struct: a key without a field is ignored.
  unfoldable pub read_members :
      {F A : Type 0} → List (String × F) → (F → Json → A → Option A) → Members → A → Option A
  read_members tags set no_members a = some a
  read_members {F = F} tags set (member k v ms) a = elim (find F tags k) [
    | none ↦ read_members tags set ms a
    | some f ↦ elim (set f v a) [ none ↦ none | some a' ↦ read_members tags set ms a' ]
  ]

  abbrev pub read_struct :
      {F A : Type 0} → List (String × F) → (F → Json → A → Option A) → Json → A → Option A
  read_struct tags set (object ms) a = read_members tags set ms a
  read_struct tags set _ a = none

  abbrev pub set_configuration : ConfigurationField → Json → Configuration → Option Configuration
  set_configuration token_field v c = assign (text_of v) λ s. record c { token = s }
  set_configuration concurrent_identifies v c =
      assign (int_of v) λ n. record c { max_concurrent_identifies = n }
  set_configuration max_heartbeat_failures v c =
      assign (int_of v) λ n. record c { max_heartbeat_failures = n }
  set_configuration autoshard v c = assign (truth_of v) λ b. record c { auto_sharded = b }
  set_configuration shard_count v c = assign (int_of v) λ n. record c { shard_count = n }
  set_configuration cluster_count v c = assign (int_of v) λ n. record c { cluster_count = n }
  set_configuration cluster_id v c = assign (int_of v) λ n. record c { cluster_id = n }
  set_configuration redis_field v c =
      assign (read_struct redis_tags set_redis v c.redis) λ r. record c { redis = r }
  set_configuration nats_field v c =
      assign (read_struct nats_tags set_nats v c.nats) λ n. record c { nats = n }
  set_configuration event_blacklist_map v c =
      assign (blacklist_of v c.event_blacklist) λ m. record c { event_blacklist = m }
  set_configuration event_blacklist v c =
      assign (list_of v) λ l. record c { event_blacklist_values = l }
  set_configuration produce_blacklist_map v c =
      assign (blacklist_of v c.produce_blacklist) λ m. record c { produce_blacklist = m }
  set_configuration produce_blacklist v c =
      assign (list_of v) λ l. record c { produce_blacklist_values = l }
  set_configuration compression v c = assign (truth_of v) λ b. record c { compression = b }
  set_configuration large_threshold v c = assign (int_of v) λ n. record c { large_threshold = n }
  set_configuration default_activity v c =
      assign (activity_of v c.default_presence) λ a. record c { default_presence = a }
  set_configuration guild_subscriptions v c =
      assign (truth_of v) λ b. record c { guild_subscriptions = b }
  set_configuration intents v c = assign (int_of v) λ n. record c { intents = n }

  -- What a text writes to a configuration.
  abbrev pub by_tags : Json → Configuration → Option Configuration
  by_tags = read_struct configuration_tags set_configuration

-- `gateway.Configuration{}`
abbrev pub zero_configuration : Configuration
zero_configuration = record {
  token = "";
  max_concurrent_identifies = pos 0;
  max_heartbeat_failures = pos 0;
  auto_sharded = false;
  shard_count = pos 0;
  cluster_count = pos 0;
  cluster_id = pos 0;
  redis = record { address = ""; password = ""; database = pos 0; prefix = "" };
  nats = record { address = ""; channel = ""; cluster_id = ""; client_id = "" };
  event_blacklist = none;
  event_blacklist_values = [];
  produce_blacklist = none;
  produce_blacklist_values = [];
  compression = false;
  large_threshold = pos 0;
  default_presence = none;
  guild_subscriptions = false;
  intents = pos 0;
}

-- main, from the text that it reads. The error of Unmarshal is not looked at.
unfoldable pub run_program :
    {Body : Type 0}
    → Http Body (Option GatewayBot)
    → Clocks
    → (ℤ → Option GoError)
    → (Json → Configuration → Option GoError × Configuration)
    → Services
    → ℕ
    → Json
    → Outcome Manager
run_program http clocks replies unmarshal services random config =
    run_main http clocks replies services random (unmarshal config zero_configuration).1
