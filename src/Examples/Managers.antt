-- ===== src/Examples/Managers.antt =====
-- gateway/manager.go at concrete inputs.
use sandwich_producer.Base.{
  ℕ, ℤ, pos, ◌≡◌, ◌≤◌, ◌<◌, ◌+◌, ◌%◌, refl, arith, true, false, [], ◌∷◌, Option, none, some,
  GoError, external, get, int_key, Returns,
}
use sandwich_producer.Events.Packets.{GatewayBot}
use sandwich_producer.Sharding.{round_shards, choose_shard_count}
use sandwich_producer.Sharding.Rounding.{round_shards_lem}
use sandwich_producer.ShardGroup.{Clocks, ShardGroup, new_shard_group, new_shard}
use sandwich_producer.Buckets.{new_bucket_store}
use sandwich_producer.Client.{new_client}
use sandwich_producer.Manager.{
  Features, Configuration, Services, Manager, open_manager, close_manager, empty_registry,
}
use sandwich_producer.Manager.Create.{empty-Holds}
use sandwich_producer.Manager.Opening.{IsScaled, open_manager-IsScaled}
use sandwich_producer.Manager.Closing.{ClosedAt, close_manager-ClosedAt}

round_shards_lem_example :
    (m : ℕ) × (round_shards (pos 65) ≡ pos m)
    × (65 ≤ m)
    × (m < 65 + 16)
    × (65 ≤ 63 → m ≡ 65)
    × (63 < 65 → m % 16 ≡ 0)
round_shards_lem_example = round_shards_lem 65 (omega arith)

abbrev features : Features
features = record {
  cache_members = true;
  store_mutuals = false;
  ignore_bots = true;
  check_prefix = false;
  check_prefix_mention = false;
}

-- As it is read from a file: a blacklist's map is nil.
abbrev configuration : Configuration
configuration = record {
  token = "token";
  max_concurrent_identifies = pos 0;
  max_heartbeat_failures = pos 0;
  auto_sharded = true;
  shard_count = pos 0;
  cluster_count = pos 2;
  cluster_id = pos 1;
  redis = record { address = "redis:6379"; password = ""; database = pos 0; prefix = "sandwich" };
  nats = record { address = "nats:4222"; channel = "sandwich"; cluster_id = "c"; client_id = "s" };
  event_blacklist = none;
  event_blacklist_values = [];
  produce_blacklist = none;
  produce_blacklist_values = [];
  compression = true;
  large_threshold = pos 100;
  default_presence = none;
  guild_subscriptions = false;
  intents = pos 0;
}

-- Redis answers, and NATS does not.
abbrev services : Services
services = record {
  redis_ping = λ _. none;
  nats_connect = λ _. some (external 1);
  stan_connect = λ _. none;
}

abbrev no_replies : ℤ → Option GoError
no_replies _ = none

abbrev clocks : Clocks
clocks id = (pos 10, pos 11)

abbrev pub manager : Manager
manager = record {
  token = "token";
  registry = empty_registry;
  ready_limiter = record { limit = pos 1; tickets = pos 0 ∷ []; in_progress = pos 0 };
  client = new_client "token";
  features = features;
  configuration = configuration;
  gateway = none;
  buckets = new_bucket_store;
}

abbrev gateway : GatewayBot
gateway = record {
  url = "wss://gateway.discord.gg";
  shards = pos 65;
  session_start_limit = record {
    total = pos 1000;
    remaining = pos 999;
    reset_after = pos 0;
    max_concurrency = pos 1;
  };
}

chosen : choose_shard_count true (pos 0) (pos 65) ≡ pos 65
unfolding choose_shard_count
chosen = refl

-- 65 shards become 80, of which this cluster runs the second forty.
open_manager-IsScaled_example :
    Returns
      (IsScaled no_replies 0 0 manager (round_shards (pos 65)) gateway)
      (open_manager clocks no_replies (some gateway, none) manager)
open_manager-IsScaled_example =
    open_manager-IsScaled clocks no_replies 0 0 (omega arith) manager 2 1 (omega arith)
      (omega arith) empty-Holds refl refl gateway 65 (omega arith) chosen

abbrev running_group : ShardGroup
running_group = record (new_shard_group (pos 33 ∷ []) (pos 80)) {
  shards =
      (
        pos 33,
        record (new_shard "token" (new_shard_group [] (pos 80))
            (record { shard_id = pos 33; ack = pos 10; sent = pos 11 })) { ws_conn = some 7 },
      )
      ∷ [];
}

-- Two groups, of which the map has the second only.
abbrev running_manager : Manager
running_manager = record manager {
  registry = record empty_registry {
    groups = running_group ∷ running_group ∷ [];
    shard_groups = (pos 1, 1) ∷ [];
    shard_groups_counter = pos 3;
  };
}

second_kept : get (pos 1) running_manager.registry.shard_groups ≡ some 1
unfolding get
second_kept = refl

close_manager-ClosedAt_example :
    ClosedAt 1 (close_manager no_replies running_manager).registry.groups
close_manager-ClosedAt_example =
    close_manager-ClosedAt no_replies (λ _. refl) running_manager (pos 1) 1 second_kept
      (omega arith)
