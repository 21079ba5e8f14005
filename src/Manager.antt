-- ===== src/Manager.antt =====
-- gateway/manager.go: the manager. The services that it connects to, and the answers of the REST
-- client, are arguments.
pub mod Create
pub mod Opening
pub mod Closing
pub mod Lost
use sandwich_producer.Base.{
  ℕ, ℤ, pos, leb_ℤ, Bool, if◌then◌else◌, List, [], ◌∷◌, Option, none, some, String, str_eq,
  string_key, put, Outcome, ret, panic, nil_dereference, nil_map_write, ◌>>=◌, GoError,
  no_token_provided, get_elem?, set,
}
use sandwich_producer.Events.Packets.{GatewayBot}
use sandwich_producer.Events.Presence.{Activity}
use sandwich_producer.Limiter.Concurrency.{ConcurrencyLimiter, new_concurrency_limiter}
use sandwich_producer.Buckets.{BucketStore, new_bucket_store}
use sandwich_producer.Client.{Client, new_client}
use sandwich_producer.ShardGroup.{Registry, ShardGroup, Clocks, scale, stop}
use sandwich_producer.Sharding.{choose_shard_count, round_shards, create_shard_ids}

pub record Features : Type 0 where
  pub cache_members : Bool
  pub store_mutuals : Bool
  pub ignore_bots : Bool
  pub check_prefix : Bool
  pub check_prefix_mention : Bool

pub record RedisConfiguration : Type 0 where
  pub address : String
  pub password : String
  pub database : ℤ
  pub prefix : String

pub record NatsConfiguration : Type 0 where
  pub address : String
  pub channel : String
  pub cluster_id : String
  pub client_id : String

-- A `map[string]void`; `none` is the nil map.
abbrev pub Blacklist : Type 0
Blacklist = Option (List (String × Unit {0}))

pub record Configuration : Type 0 where
  pub token : String
  pub max_concurrent_identifies : ℤ
  pub max_heartbeat_failures : ℤ
  pub auto_sharded : Bool
  pub shard_count : ℤ
  pub cluster_count : ℤ
  pub cluster_id : ℤ
  pub redis : RedisConfiguration
  pub nats : NatsConfiguration
  pub event_blacklist : Blacklist
  pub event_blacklist_values : List String
  pub produce_blacklist : Blacklist
  pub produce_blacklist_values : List String
  pub compression : Bool
  pub large_threshold : ℤ
  pub default_presence : Option Activity
  pub guild_subscriptions : Bool
  pub intents : ℤ

pub record Manager : Type 0 where
  pub token : String
  pub registry : Registry
  pub ready_limiter : ConcurrencyLimiter
  pub client : Client
  pub features : Features
  pub configuration : Configuration
  pub gateway : Option GatewayBot
  pub buckets : BucketStore

-- The three connections of NewManager: the errors of the ping, of NATS and of its streaming.
pub record Services : Type 0 where
  pub redis_ping : RedisConfiguration → Option GoError
  pub nats_connect : NatsConfiguration → Option GoError
  pub stan_connect : NatsConfiguration → Option GoError

-- The two defaults of NewManager.
unfoldable pub with_defaults : Configuration → Configuration
with_defaults c = record c {
  max_concurrent_identifies =
      if leb_ℤ c.max_concurrent_identifies (pos 0) then pos 1 else c.max_concurrent_identifies;
  max_heartbeat_failures =
      if leb_ℤ c.max_heartbeat_failures (pos 0) then pos 5 else c.max_heartbeat_failures;
}

-- `for _, i := range values { blacklist[i] = void{} }`: a write to a nil map panics.
unfoldable pub fill_blacklist : List String → Blacklist → Outcome Blacklist
fill_blacklist [] m = ret m
fill_blacklist (v ∷ values) none = panic nil_map_write
fill_blacklist (v ∷ values) (some m) = fill_blacklist values (some (put v tt m))

unfoldable pub connect_services : Services → Configuration → Option GoError
connect_services s c = elim (s.redis_ping c.redis) [
  | some e ↦ some e
  | none ↦ elim (s.nats_connect c.nats) [ some e ↦ some e | none ↦ s.stan_connect c.nats ]
]

abbrev pub empty_registry : Registry
empty_registry = record {
  groups = [];
  shard_groups = [];
  shard_groups_counter = pos 0;
  max_shard_groups = pos 2;
}

-- NewManager once a token is given. A failed connection returns the manager and the error.
unfoldable pub build_manager :
    Services → Features → Configuration → Outcome (Option Manager × Option GoError)
build_manager s features c = new_concurrency_limiter c.max_concurrent_identifies >>= λ limiter.
    fill_blacklist c.event_blacklist_values c.event_blacklist >>= λ events.
    fill_blacklist c.produce_blacklist_values c.produce_blacklist >>= λ produced.
    let c' : Configuration = record c { event_blacklist = events; produce_blacklist = produced } in
    ret (
      some (record {
        token = c.token;
        registry = empty_registry;
        ready_limiter = limiter;
        client = new_client c.token;
        features = features;
        configuration = c';
        gateway = none;
        buckets = new_bucket_store;
      }),
      connect_services s c',
    )

unfoldable pub new_manager :
    Services → Features → Configuration → Outcome (Option Manager × Option GoError)
new_manager s features c =
    if str_eq c.token ""
    then ret (none, some no_token_provided)
    else build_manager s features (with_defaults c)

-- Scale on the manager's registry.
unfoldable pub scale_manager :
    Clocks → (ℤ → Option GoError) → List ℤ → ℤ → Manager → Outcome (Option GoError × Manager)
scale_manager clocks replies ids count m =
    scale m.token clocks replies ids count m.registry >>= λ (err, r).
    ret (err, record m { registry = r })

-- The end of Open and of GatewayScale: the cluster's ids, and Scale.
unfoldable pub scale_to :
    Clocks → (ℤ → Option GoError) → ℤ → Manager → Outcome (Option GoError × Manager)
scale_to clocks replies count m =
    create_shard_ids m.configuration.cluster_count m.configuration.cluster_id count >>= λ ids.
    scale_manager clocks replies ids count m

-- Open, on what `FetchJSON` of /gateway/bot returned: the nil pointer that a body of `null` leaves is read
-- for the banner. The banner and the log lines are left out.
unfoldable pub open_manager :
    Clocks
    → (ℤ → Option GoError)
    → Option GatewayBot × Option GoError
    → Manager
    → Outcome (Option GoError × Manager)
open_manager clocks replies (res, some e) m = ret (some e, m)
open_manager clocks replies (none, none) m = panic nil_dereference
open_manager clocks replies (some res, none) m =
    let c = m.configuration in
    let count = round_shards (choose_shard_count c.auto_sharded c.shard_count res.shards) in
    scale_to clocks replies count (record m { gateway = some res })

-- GatewayScale: the recommended number is rounded in the stored answer, and taken as it is.
unfoldable pub gateway_scale :
    Clocks
    → (ℤ → Option GoError)
    → Option GatewayBot × Option GoError
    → Manager
    → Outcome (Option GoError × Manager)
gateway_scale clocks replies (res, some e) m = ret (some e, m)
gateway_scale clocks replies (none, none) m = panic nil_dereference
gateway_scale clocks replies (some res, none) m =
    let count = round_shards res.shards in
    scale_to clocks replies count (record m { gateway = some (record res { shards = count }) })

-- Close stops the groups that the map has. A group behind two keys would be stopped twice.
unfoldable pub stop_at : (ℤ → Option GoError) → ℕ → List ShardGroup → List ShardGroup
stop_at replies a groups = elim (get_elem? groups a) [
  | none ↦ groups
  | some g ↦ set groups a (stop replies g)
]

unfoldable pub stop_all : (ℤ → Option GoError) → List (ℤ × ℕ) → List ShardGroup → List ShardGroup
stop_all replies [] groups = groups
stop_all replies ((key, a) ∷ places) groups = stop_all replies places (stop_at replies a groups)

unfoldable pub close_manager : (ℤ → Option GoError) → Manager → Manager
close_manager replies m = record m {
  registry = record m.registry {
    groups = stop_all replies m.registry.shard_groups m.registry.groups;
  };
}
