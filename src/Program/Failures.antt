-- ===== src/Program/Failures.antt =====
-- main.go: how the program ends before it runs.
use mathlib.Core.Path.{subst}
use sandwich_producer.Base.{
  sym, ℕ, ℤ, ◌≡◌, ◌≢◌, refl, ◌∙◌, List, [], ◌∷◌, String, Option, none, some, GoError,
  no_token_provided, invalid_token, Panic, raised, nil_dereference, nil_map_write, Outcome, ret,
  panic, Returns-ret, arith, ◌>>=◌, eq_iff,
}
use sandwich_producer.Events.Packets.{GatewayBot}
use sandwich_producer.Client.{
  new_client, Http, Request, Response, prepare, fetch_json, send_request,
}
use sandwich_producer.Client.Requests.{fetch_json-response, fetch_json-unsent}
use sandwich_producer.ShardGroup.{Clocks}
use sandwich_producer.Manager.{
  Configuration, Manager, Services, with_defaults, connect_services, new_manager, open_manager,
}
use sandwich_producer.Manager.Create.{IsMade, new_manager-IsReady, new_manager-nil_blacklist}
use sandwich_producer.Program.{
  with_client_id, no_features, zero_gateway, open_gateway, run_main, or_panic,
}

module _ {Body : Type 0} (http : Http Body (Option GatewayBot)) (services : Services) (random : ℕ)
    (c : Configuration) where
  -- The configuration is good enough for NewManager to return a manager and no error.
  pub record IsAccepted : Type 0 where
    pub given : c.token ≢ ""
    pub no_events : c.event_blacklist_values ≡ []
    pub no_produce : c.produce_blacklist_values ≡ []
    pub connected : connect_services services (with_defaults (with_client_id random c)) ≡ none

  -- What can go wrong with the request for the gateway, and what comes of it.
  pub data Unfetched : Panic → Type 0 where
    no_request :
        {req : Option Request} {e : GoError}
        → http.new_request "GET" "/gateway/bot" ≡ (req, some e)
        → Unfetched (raised e)
    no_response :
        {req : Request} {e : GoError}
        → http.new_request "GET" "/gateway/bot" ≡ (some req, none)
        → http.send (prepare (new_client c.token) req) ≡ (none, some e)
        → Unfetched nil_dereference
    unauthorized :
        {req : Request} {res : Response Body}
        → http.new_request "GET" "/gateway/bot" ≡ (some req, none)
        → http.send (prepare (new_client c.token) req) ≡ (some res, none)
        → res.status ≡ 401
        → Unfetched (raised invalid_token)
    undecoded :
        {req : Request} {res : Response Body} {e : GoError}
        → http.new_request "GET" "/gateway/bot" ≡ (some req, none)
        → http.send (prepare (new_client c.token) req) ≡ (some res, none)
        → res.status ≢ 401
        → (http.decode res.body (some zero_gateway)).1 ≡ some e
        → Unfetched (raised e)
    null_body :
        {req : Request} {res : Response Body}
        → http.new_request "GET" "/gateway/bot" ≡ (some req, none)
        → http.send (prepare (new_client c.token) req) ≡ (some res, none)
        → res.status ≢ 401
        → http.decode res.body (some zero_gateway) ≡ (none, none)
        → Unfetched nil_dereference

  -- What can go wrong before the shards are started.
  pub data Fails : Panic → Type 0 where
    no_token : c.token ≡ "" → Fails (raised no_token_provided)
    listed :
        {event : String} {events : List String}
        → c.token ≢ ""
        → c.event_blacklist ≡ none
        → c.event_blacklist_values ≡ event ∷ events
        → Fails nil_map_write
    unserved :
        {e : GoError}
        → c.token ≢ ""
        → c.event_blacklist_values ≡ []
        → c.produce_blacklist_values ≡ []
        → connect_services services (with_defaults (with_client_id random c)) ≡ some e
        → Fails (raised e)
    unfetched : {p : Panic} → IsAccepted → Unfetched p → Fails p

  -- What FetchJSON leaves makes main panic in the same way.
  data Ends (p : Panic) : Outcome (Option GatewayBot × Option GoError) → Type 0 where
    panics : Ends p (panic p)
    fails : {g : Option GatewayBot} {e : GoError} → p ≡ raised e → Ends p (ret (g, some e))
    lacks : p ≡ nil_dereference → Ends p (ret (none, none))

  abbrev fetched : Outcome (Option GatewayBot × Option GoError)
  fetched = fetch_json http (new_client c.token) "GET" "/gateway/bot" (some zero_gateway)

  fetch_json-Unfetched : {p : Panic} → Unfetched p → Ends p fetched
  unfolding fetch_json send_request
  fetch_json-Unfetched (no_request {e = e} made) = rw made (fails refl)
  fetch_json-Unfetched {p} (no_response {req} {e} made sent) =
      subst (Ends p)
        (sym (
          fetch_json-unsent http (new_client c.token) "GET" "/gateway/bot" (some zero_gateway) req
            made e sent))
        panics
  fetch_json-Unfetched {p} (unauthorized {req} {res} made sent status) =
      subst (Ends p)
        (sym (
          fetch_json-response http (new_client c.token) "GET" "/gateway/bot" (some zero_gateway) req
            made res sent
          ∙ ground (arith, status)))
        (fails {g = some zero_gateway} {e = invalid_token} refl)
  fetch_json-Unfetched {p} (undecoded {req} {res} {e} made sent status bad) =
      subst (Ends p)
        (sym (
          fetch_json-response http (new_client c.token) "GET" "/gateway/bot" (some zero_gateway) req
            made res sent
          ∙ ground (arith, status, bad)))
        (fails {g = (http.decode res.body (some zero_gateway)).0} {e = e} refl)
  fetch_json-Unfetched {p} (null_body {req} {res} made sent status null) =
      subst (Ends p)
        (sym (
          fetch_json-response http (new_client c.token) "GET" "/gateway/bot" (some zero_gateway) req
            made res sent
          ∙ ground (arith, status, null)))
        (lacks refl)

  abbrev configured : Configuration
  configured = with_client_id random c

  -- NewManager returns a ready manager, with what the services return.
  returned :
      c.token ≢ ""
      → c.event_blacklist_values ≡ []
      → c.produce_blacklist_values ≡ []
      → (x : Option Manager × Option GoError) × (new_manager services no_features configured
          ≡ ret x)
        × IsMade services (with_defaults configured) x
  unfolding with_client_id
  returned given no_events no_produce =
      Returns-ret _ _
        (new_manager-IsReady services no_features configured given no_events no_produce)

  no_token-lem :
      c.token ≡ ""
      → new_manager services no_features configured ≡ ret (none, some no_token_provided)
  unfolding new_manager with_client_id
  no_token-lem e = ground (arith, e, eq_iff c.token "")

  listed-lem :
      {event : String} {events : List String}
      → c.token ≢ ""
      → c.event_blacklist ≡ none
      → c.event_blacklist_values ≡ event ∷ events
      → new_manager services no_features configured ≡ panic nil_map_write
  unfolding with_client_id
  listed-lem {event} {events} given empty listing =
      new_manager-nil_blacklist services no_features configured event events given empty listing

  module _ (clocks : Clocks) (replies : ℤ → Option GoError) where
    open_gateway-Unfetched :
        {p : Panic} (m : Manager) (next : Manager → Outcome Manager)
        → m.client ≡ new_client c.token
        → Unfetched p
        → (open_gateway http clocks replies m >>= λ (err, m'). or_panic err (next m')) ≡ panic p
    unfolding open_gateway open_manager
    open_gateway-Unfetched {p} m next client u = ends_in _ (
        subst (λ cl. Ends p (fetch_json http cl "GET" "/gateway/bot" (some zero_gateway)))
          (sym client) (fetch_json-Unfetched u))
      where
        ends_in :
            (x : Outcome (Option GatewayBot × Option GoError))
            → Ends p x
            → ((x >>= λ answer. open_manager clocks replies answer m) >>= λ (err, m').
                or_panic err (next m'))
              ≡ panic p
        ends_in _ panics = refl
        ends_in _ (fails same) = rw same refl
        ends_in _ (lacks same) = rw same refl

    -- Without a token, with events listed and no map for them, with a service that cannot be reached, or
    -- with a request for the gateway that fails, main ends in a panic before it starts a shard: with the
    -- error as its value, but with a write to a nil map for the listed events, and with a nil
    -- dereference if the request gets no response or a body that is null.
    pub run_main-Fails :
        {p : Panic} → Fails p → run_main http clocks replies services random c ≡ panic p
    unfolding run_main with_defaults
    run_main-Fails (no_token e) = rw (no_token-lem e) refl
    run_main-Fails (listed {event} {events} given empty listing) =
        rw (listed-lem given empty listing) refl
    run_main-Fails (unserved given no_events no_produce e) =
        let (x, returns, (_, err)) = returned given no_events no_produce in
        rw (returns, ◌>>=◌, err ∙ e) refl
    run_main-Fails (unfetched ok u) =
        let (x, returns, ((m, made, ready), err)) = returned ok.given ok.no_events ok.no_produce in
        rw (returns, ◌>>=◌, err ∙ ok.connected, made)
          (open_gateway-Unfetched m _ ready.token_given u)
