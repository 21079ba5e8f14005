-- ===== src/Client/Requests.antt =====
-- client/client.go: what a request looks like when it is sent, and what FetchJSON makes of the reply.
use Prim.Native.String.{◌++◌}
use sandwich_producer.Base.{
  ◌≡◌, refl, String, none, some, GoError, invalid_token, ret, panic, nil_dereference, arith,
  if◌then◌else◌, ◌==◌,
}
use sandwich_producer.Client.{
  Client, new_client, Request, Response, prepare, Http, check_status, handle_request, read_response,
  send_request, fetch_json,
}

-- A request of a new client for a path, with no host, scheme or header of its own, is sent to
-- Discord's API over https, under version 6 and with the bot's token.
pub prepare-new_client :
    (token method path : String)
    → prepare (new_client token) (record {
      method = method;
      path = path;
      host = "";
      scheme = "";
      agent = "";
      authorization = "";
    })
      ≡ record {
        method = method;
        path = "/api/v6" ++ path;
        host = "discord.com";
        scheme = "https";
        agent = "";
        authorization = "Bot " ++ token;
      }
unfolding prepare new_client
prepare-new_client token method path = refl

module _ {Body T : Type 0} (http : Http Body T) (c : Client) (method url : String) (structure : T)
    (req : Request) (made : http.new_request method url ≡ (some req, none)) where
  -- A request that cannot be sent, and so gets no response, ends in a panic and not in its error.
  pub fetch_json-unsent :
      (e : GoError)
      → http.send (prepare c req) ≡ (none, some e)
      → fetch_json http c method url structure ≡ panic nil_dereference
  unfolding fetch_json send_request handle_request check_status read_response
  fetch_json-unsent e h = ground (arith, made, h)

  -- With a response, FetchJSON reports an invalid token for the status 401, with the structure as it
  -- was, and decodes the body at every other status, an error or not.
  pub fetch_json-response :
      (res : Response Body)
      → http.send (prepare c req) ≡ (some res, none)
      → fetch_json http c method url structure
        ≡ ret (
            if res.status == 401
            then (structure, some invalid_token)
            else http.decode res.body structure)
  unfolding fetch_json send_request handle_request check_status read_response
  fetch_json-response res h = ground (arith, made, h)
