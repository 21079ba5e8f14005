-- ===== src/Client.antt =====
-- client/client.go: the REST client. The HTTP library is a parameter.
pub mod Requests
use Prim.Native.String.{◌++◌}
use sandwich_producer.Base.{
  ℕ, String, str_eq, ◌==◌, if◌then◌else◌, Option, none, some, GoError, invalid_token, Outcome, ret,
  panic, nil_dereference, ◌>>=◌,
}

pub record Client : Type 0 where
  pub token : String
  pub api_version : String
  pub url_host : String
  pub url_scheme : String
  pub user_agent : String

unfoldable pub new_client : String → Client
new_client token = record {
  token = token;
  api_version = "6";
  url_host = "discord.com";
  url_scheme = "https";
  user_agent = "";
}

-- The parts of an *http.Request that the client reads or writes. A header that is not set reads "".
pub record Request : Type 0 where
  pub method : String
  pub path : String
  pub host : String
  pub scheme : String
  pub agent : String
  pub authorization : String

pub record Response (Body : Type 0) : Type 0 where
  pub status : ℕ
  pub body : Body

abbrev filled : String → String → String
filled given fallback = if str_eq given "" then fallback else given

-- HandleRequest up to the call of the HTTP client.
unfoldable pub prepare : Client → Request → Request
prepare c req = record req {
  path = ("/api/v" ++ c.api_version) ++ req.path;
  host = filled req.host c.url_host;
  scheme = filled req.scheme c.url_scheme;
  agent = filled req.agent c.user_agent;
  authorization = filled req.authorization ("Bot " ++ c.token);
}

-- net/http and encoding: `http.NewRequest`, the client's `Do`, and the decoding of a body into a
-- value, given what the value is before. A nil response is `none`.
pub record Http (Body T : Type 0) : Type 0 where
  pub new_request : String → String → Option Request × Option GoError
  pub send : Request → Option (Response Body) × Option GoError
  pub decode : Body → T → T × Option GoError

module _ {Body T : Type 0} (http : Http Body T) where
  -- The code after `Do`, on its two results.
  unfoldable pub check_status :
      Option (Response Body) × Option GoError → Outcome (Option (Response Body) × Option GoError)
  check_status (res, some e) = ret (res, some e)
  check_status (none, none) = panic nil_dereference
  check_status (some res, none) =
      if res.status == 401 then ret (some res, some invalid_token) else ret (some res, none)

  unfoldable pub handle_request :
      Client → Request → Outcome (Option (Response Body) × Option GoError)
  handle_request c req = check_status (http.send (prepare c req))

  -- `defer res.Body.Close()` reads `res` at once; the error is looked at next.
  unfoldable pub read_response :
      T → Option (Response Body) × Option GoError → Outcome (T × Option GoError)
  read_response structure (none, err) = panic nil_dereference
  read_response structure (some res, some e) = ret (structure, some e)
  read_response structure (some res, none) = ret (http.decode res.body structure)

  unfoldable pub send_request :
      Client → T → Option Request × Option GoError → Outcome (T × Option GoError)
  send_request c structure (req, some e) = ret (structure, some e)
  send_request c structure (none, none) = panic nil_dereference
  send_request c structure (some req, none) =
      handle_request c req >>= λ r. read_response structure r

  -- FetchJSON: what `structure` holds in the end, and the error.
  unfoldable pub fetch_json : Client → String → String → T → Outcome (T × Option GoError)
  fetch_json c method url structure = send_request c structure (http.new_request method url)
