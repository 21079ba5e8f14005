-- ===== src/Program/Serving.antt =====
-- main.go: the run of the program from its configuration to its wait for a signal.
use sandwich_producer.Base.{
  ℕ, ℤ, pos, ◌^◌, ◌<◌, ◌≤◌, ◌≡◌, ◌≢◌, [], Option, none, some, GoError, int_key,
}
use sandwich_producer.Events.Packets.{GatewayBot}
use sandwich_producer.Client.{new_client, Http, Request, Response, prepare}
use sandwich_producer.Sharding.{choose_shard_count, round_shards}
use sandwich_producer.ShardGroup.{Clocks}
use sandwich_producer.Manager.{Configuration, Manager, Services, with_defaults, connect_services}
use sandwich_producer.Manager.Create.{IsReady}
use sandwich_producer.Manager.Opening.{IsScaled}
use sandwich_producer.Program.{with_client_id, zero_gateway}

-- A configuration that the program can run with: it has a token and no blacklists, its cluster is one
-- of its clusters, and the services accept it.
pub record IsUsable (services : Services) (random clusters cluster : ℕ) (c : Configuration)
    : Type 0 where
  pub given : c.token ≢ ""
  pub no_events : c.event_blacklist_values ≡ []
  pub no_produce : c.produce_blacklist_values ≡ []
  pub counted : c.cluster_count ≡ pos clusters
  pub numbered : c.cluster_id ≡ pos cluster
  pub few : clusters < 2 ^ 63
  pub valid : cluster < clusters
  pub connected : connect_services services (with_defaults (with_client_id random c)) ≡ none

-- What the answer to /gateway/bot is to be for a configuration: a gateway with a number of shards that
-- the program can round.
pub record Answers {Body : Type 0} (http : Http Body (Option GatewayBot)) (c : Configuration)
    (n : ℕ) (g : GatewayBot) : Type 0 where
  pub request : Request
  pub response : Response Body
  pub made : http.new_request "GET" "/gateway/bot" ≡ (some request, none)
  pub sent : http.send (prepare (new_client c.token) request) ≡ (some response, none)
  pub authorized : response.status ≢ 401
  pub decoded : http.decode response.body (some zero_gateway) ≡ (some g, none)
  pub small : n ≤ 2 ^ 53
  pub chosen : choose_shard_count c.auto_sharded c.shard_count g.shards ≡ pos n

module _ {Body : Type 0} (http : Http Body (Option GatewayBot)) (clocks : Clocks)
    (replies : ℤ → Option GoError) where
  module _ (services : Services) (random n : ℕ) (c : Configuration) (g : GatewayBot) where
    -- The manager `m'` with which main waits: what NewManager makes of the configuration, on which Open
    -- has stored the answer and started one group, with the rounded number of shards and the ids that
    -- CreateShardIDs gives for it.
    abbrev pub Serves : Manager → Type 0
    Serves m' =
        (m : Manager) × IsReady (with_defaults (with_client_id random c)) m
        × IsScaled replies 0 0 m (round_shards (pos n)) g (none, m')

    module _ (clusters cluster : ℕ) (usable : IsUsable services random clusters cluster c)
        (answers : Answers http c n g) where
      configured : Configuration
      configured = with_defaults (with_client_id random c)
