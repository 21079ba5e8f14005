-- ===== src/Examples/Programs.antt =====
-- main.go and gateway/shard_group.go at concrete inputs.
use sandwich_producer.Base.{
  ℤ, pos, ◌≡◌, refl, true, false, [], Option, none, some, GoError, external, panic, nil_dereference,
}
use sandwich_producer.Events.Packets.{GatewayBot}
use sandwich_producer.Client.{Http, Request}
use sandwich_producer.ShardGroup.{Clocks}
use sandwich_producer.Manager.{Configuration, Services, connect_services}
use sandwich_producer.Program.{run_main}
use sandwich_producer.Program.Failures.{unfetched, no_response, run_main-Fails}

abbrev pub no_replies : ℤ → Option GoError
no_replies _ = none

-- What main.go's own text is read as: it has the key "concurrent_clients", which no field has.
abbrev configuration : Configuration
configuration = record {
  token = "token";
  max_concurrent_identifies = pos 0;
  max_heartbeat_failures = pos 5;
  auto_sharded = false;
  shard_count = pos 2;
  cluster_count = pos 1;
  cluster_id = pos 0;
  redis = record {
    address = "127.0.0.1:6379";
    password = "";
    database = pos 0;
    prefix = "welcomer";
  };
  nats = record {
    address = "127.0.0.1:4222";
    channel = "welcomer";
    cluster_id = "cluster";
    client_id = "welcomer";
  };
  event_blacklist = none;
  event_blacklist_values = [];
  produce_blacklist = none;
  produce_blacklist_values = [];
  compression = true;
  large_threshold = pos 100;
  default_presence = none;
  guild_subscriptions = false;
  intents = pos 0;
}

abbrev pub services : Services
services = record { redis_ping = λ _. none; nats_connect = λ _. none; stan_connect = λ _. none }

abbrev pub gateway : GatewayBot
gateway = record {
  url = "wss://gateway.discord.gg";
  shards = pos 2;
  session_start_limit = record {
    total = pos 1000;
    remaining = pos 999;
    reset_after = pos 0;
    max_concurrency = pos 1;
  };
}

abbrev pub request : Request
request = record {
  method = "GET";
  path = "/gateway/bot";
  host = "";
  scheme = "";
  agent = "";
  authorization = "";
}

-- An HTTP library that answers every request with the gateway.
abbrev pub http : Http (Option GatewayBot) (Option GatewayBot)
http = record {
  new_request = λ _ _. (some request, none);
  send = λ _. (some (record { status = 200; body = some gateway }), none);
  decode = λ b _. (b, none);
}

abbrev pub clocks : Clocks
clocks id = (pos 10, pos 11)

-- The gateway cannot be reached.
abbrev unreachable : Http (Option GatewayBot) (Option GatewayBot)
unreachable = record http { send = λ _. (none, some (external 1)) }

run_main-Fails_example :
    run_main unreachable clocks no_replies services 42 configuration ≡ panic nil_dereference
unfolding connect_services
run_main-Fails_example = run_main-Fails unreachable services 42 configuration clocks no_replies (
    unfetched (record { given = λ h. cc; no_events = refl; no_produce = refl; connected = refl })
      (no_response {req = request} {e = external 1} refl refl))
