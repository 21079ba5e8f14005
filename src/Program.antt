-- ===== src/Program.antt =====
-- main.go: the program. What the text of its configuration is read as, the random number and the
-- services are arguments. It goes up to the wait for a signal; the Close that follows is in Manager.
pub mod Serving
pub mod Failures
pub mod Text
pub mod Config
use Prim.Native.String.{◌++◌}
use sandwich_producer.Base.{
  ℕ, ℤ, pos, false, Option, none, some, GoError, Outcome, ret, panic, raised, nil_dereference,
  ◌>>=◌,
}
use sandwich_producer.Events.Packets.{GatewayBot}
use sandwich_producer.Identify.Decimal.{decimal}
use sandwich_producer.Client.{Http, fetch_json}
use sandwich_producer.ShardGroup.{Clocks}
use sandwich_producer.Manager.{
  Features, Configuration, Manager, Services, new_manager, open_manager,
}

-- `gateway.Features{}`
abbrev pub no_features : Features
no_features = record {
  cache_members = false;
  store_mutuals = false;
  ignore_bots = false;
  check_prefix = false;
  check_prefix_mention = false;
}

-- `new(events.GatewayBot)`. The decoder is given the pointer's address, and a body of `null` makes it nil.
abbrev pub zero_gateway : GatewayBot
zero_gateway = record {
  url = "";
  shards = pos 0;
  session_start_limit = record {
    total = pos 0;
    remaining = pos 0;
    reset_after = pos 0;
    max_concurrency = pos 0;
  };
}

-- `configuration.Nats.ClientID += "-" + strconv.Itoa(rand.Intn(9999))`
unfoldable pub with_client_id : ℕ → Configuration → Configuration
with_client_id random c = record c {
  nats = record c.nats { client_id = c.nats.client_id ++ ("-" ++ decimal (pos random)) };
}

-- `if err != nil { panic(err) }`, and what follows.
abbrev pub or_panic {ℓ} : {A : Type ℓ} → Option GoError → Outcome A → Outcome A
or_panic none next = next
or_panic (some e) next = panic (raised e)

-- A method call on the manager that NewManager returned.
abbrev pub manager_of : Option Manager → Outcome Manager
manager_of none = panic nil_dereference
manager_of (some m) = ret m

module _ {Body : Type 0} (http : Http Body (Option GatewayBot)) (clocks : Clocks)
    (replies : ℤ → Option GoError) where
  -- Manager.Open with its request.
  unfoldable pub open_gateway : Manager → Outcome (Option GoError × Manager)
  open_gateway m = fetch_json http m.client "GET" "/gateway/bot" (some zero_gateway) >>= λ answer.
      open_manager clocks replies answer m

  -- main, from its configuration to its wait for a signal: the manager as it is then.
  unfoldable pub run_main : Services → ℕ → Configuration → Outcome Manager
  unfolding with_client_id open_gateway
  run_main services random c =
      new_manager services no_features (with_client_id random c) >>= λ (made, err).
      or_panic err
        (manager_of made >>= λ m. open_gateway m >>= λ (err', m'). or_panic err' (ret m'))
