-- ===== src/Examples/Shards.antt =====
-- gateway/shard.go, gateway/utils.go and client/client.go at concrete inputs.
use sandwich_producer.Base.{
  ◌*ℤ◌, wrap64, arith, ℕ, pos, ◌<◌, ◌≡◌, ◌≢◌, ◌↔◌, refl, true, false, List, [], ◌∷◌, Option, none,
  some, GoError, external, invalid_token, ret, panic, nil_dereference, Returns, Ensures, All,
  length, saturate64, ◌-ℤ◌,
}
use sandwich_producer.Events.Packets.{GatewayBot, Hello}
use sandwich_producer.Utils.{int, contains, contains_iff}
use sandwich_producer.ShardGroup.{empty_payload}
use sandwich_producer.Shard.{
  read_message, conn_of, decode_message, unmarshal_msg, decode_content, Libraries, State, ReadReply,
  message_text, can_resume,
}
use sandwich_producer.Shard.Connect.{
  Upstream, Attempt, Turn, tick, default, returned, running, connect, listen, open_shard,
  ticker_interval, ack_is_late,
}
use sandwich_producer.Shard.Continue.{open_shard-ne-returned}
use sandwich_producer.Shard.Session.{IsFirstAction, open_shard_never_resumes}
use sandwich_producer.Shard.Liveness.{IsOpen, IsQuiet, listen_keeps_running}
use sandwich_producer.Shard.Protocol.{Rests}
use sandwich_producer.Shard.Safety.{GreetsWell, open_shard-Returns, connect-panic_iff}
use sandwich_producer.Shard.Protocol.Connections.{open_shard-Rests}
use sandwich_producer.Client.{new_client, Request, Response, Http, fetch_json}
use sandwich_producer.Client.Requests.{fetch_json-response}

-- A library in which every call succeeds, and a hello asks for a heartbeat every 41250 ms.
abbrev pub lib : Libraries
lib = record {
  close_status = λ _. pos 4004;
  status_normal_closure = pos 1000;
  marshal = λ _. ([], none);
  unmarshal_payload = λ _ m. (m, none);
  unmarshal_hello = λ _ _. (record { heartbeat_interval = pos 41250 }, none);
  decompress = λ b. (b, none);
  goos = "linux";
}

abbrev pub gateway : GatewayBot
gateway = record {
  url = "wss://gateway.discord.gg";
  shards = pos 2;
  session_start_limit = record {
    total = pos 1000;
    remaining = pos 999;
    reset_after = pos 0;
    max_concurrency = pos 1;
  };
}

abbrev pub up : Upstream
up = record { token = "token"; gateway = some gateway; max_heartbeat_failures = pos 5 }

abbrev new_state : State
new_state = record {
  shard = record {
    token = "token";
    shard_id = pos 0;
    shard_count = pos 2;
    last_heartbeat_ack = pos 10;
    last_heartbeat_sent = pos 11;
    ws_conn = none;
    msg = empty_payload;
    buf = [];
    seq = pos 0;
    session_id = "";
  };
  log = [];
}

abbrev pub open_state : State
open_state = record new_state { shard = record new_state.shard { ws_conn = some 7 } }

abbrev pub message : ReadReply
message = record { message_type = message_text; bytes = 123 ∷ 125 ∷ []; err = none }

-- A close code of 4004, authentication failed.
abbrev refused : ReadReply
refused = record { message_type = message_text; bytes = []; err = some (external 4004) }

abbrev turns : List Turn
turns =
    record { select = default; read = message }
    ∷ record { select = tick (pos 20) none none; read = refused }
    ∷ []

abbrev attempt : Attempt
attempt = record {
  dial = record { conn = some 7; err = none };
  hello_read = message;
  first_write = none;
  turns = turns;
}

-- A connection that is refused while it is read from.
abbrev refused_attempt : Attempt
refused_attempt = record attempt { hello_read = refused }

abbrev failed_attempt : Attempt
failed_attempt = record attempt { dial = record { conn = none; err = some (external 1) } }

contains_iff_example :
    (contains (int (pos 1)) (int (pos 7) ∷ int (pos 8) ∷ []) ≡ true)
    ↔ ((k : ℕ) × (k < length (int (pos 7) ∷ int (pos 8) ∷ [])) × (int (pos 1) ≡ int (pos k)))
contains_iff_example = contains_iff (int (pos 1)) (int (pos 7) ∷ int (pos 8) ∷ [])

open_shard-ne-returned_example :
    open_shard lib up (refused_attempt ∷ attempt ∷ []) new_state
    ≢ ret (returned (some (external 4004)), open_state)
open_shard-ne-returned_example =
    open_shard-ne-returned lib up (refused_attempt ∷ attempt ∷ []) new_state (some (external 4004))
      open_state

open_shard_never_resumes_example :
    Ensures
      (λ x. (can_resume x.1.shard ≡ false) × All IsFirstAction x.1.log)
      (open_shard lib up (refused_attempt ∷ attempt ∷ []) new_state)
open_shard_never_resumes_example =
    open_shard_never_resumes lib up (refused_attempt ∷ attempt ∷ []) new_state (refl, refl) refl

timely : ack_is_late (pos 20) (pos 10) (pos 100) ≡ false
unfolding ack_is_late saturate64 ◌-ℤ◌
timely = refl

turns-IsQuiet : All (λ t. IsQuiet (pos 10) (pos 100) t.select) turns
turns-IsQuiet = (tt, ((refl, timely), tt))

open_state-IsOpen : IsOpen 7 (pos 10) open_state
open_state-IsOpen = record { connected = refl; acked = refl }

listen_keeps_running_example :
    Returns
      (λ x. (x.0 ≡ running) × IsOpen 7 (pos 10) x.1)
      (listen lib (pos 100) turns none open_state)
listen_keeps_running_example =
    listen_keeps_running lib 7 (pos 10) (pos 100) (λ _. refl) turns none open_state turns-IsQuiet
      open_state-IsOpen

open_shard-Rests_example :
    Ensures (λ x. Rests x.1) (open_shard lib up (refused_attempt ∷ attempt ∷ []) new_state)
open_shard-Rests_example = open_shard-Rests lib up (refused_attempt ∷ attempt ∷ []) new_state refl

-- A library that takes the hello from the bytes of its message, and leaves it as it was if there are none.
hello_of : List ℕ → Hello → Hello × Option GoError
hello_of [] h = (h, none)
hello_of (_ ∷ _) h = (record { heartbeat_interval = pos 41250 }, none)

abbrev careful : Libraries
careful = record lib {
  unmarshal_payload = λ bytes m. (record m { raw = bytes }, none);
  unmarshal_hello = hello_of;
}

attempt-GreetsWell : GreetsWell careful attempt
unfolding read_message conn_of decode_message unmarshal_msg decode_content hello_of ticker_interval
    ◌*ℤ◌ wrap64
attempt-GreetsWell s s' read fine = ground (arith, read)

refused_attempt-GreetsWell : GreetsWell careful refused_attempt
unfolding read_message conn_of
refused_attempt-GreetsWell s s' read fine = absurd (ground (arith, read))

open_shard-Returns_example :
    Returns (λ x. Rests x.1) (open_shard careful up (refused_attempt ∷ attempt ∷ []) new_state)
open_shard-Returns_example =
    open_shard-Returns careful up gateway refl (λ h. cc) (refused_attempt ∷ attempt ∷ []) new_state
      (((7, refl), refused_attempt-GreetsWell), (((7, refl), attempt-GreetsWell), tt)) refl

connect-panic_iff_example :
    (connect careful up failed_attempt new_state ≡ panic nil_dereference)
    ↔ (failed_attempt.dial.conn ≡ none)
connect-panic_iff_example =
    connect-panic_iff careful up gateway refl (λ h. cc) failed_attempt new_state

abbrev request : Request
request = record {
  method = "GET";
  path = "/gateway/bot";
  host = "";
  scheme = "";
  agent = "";
  authorization = "";
}

-- An HTTP library that gives one answer to every request; its bodies are numbers.
abbrev http_of : Option (Response ℕ) × Option GoError → Http ℕ ℕ
http_of answer = record {
  new_request = λ _ _. (some request, none);
  send = λ _. answer;
  decode = λ b _. (b, none);
}

abbrev unauthorized : Response ℕ
unauthorized = record { status = 401; body = 5 }

fetch_json-response_example :
    fetch_json (http_of (some unauthorized, none)) (new_client "token") "GET" "/gateway/bot" 0
    ≡ ret (0, some invalid_token)
fetch_json-response_example =
    fetch_json-response (http_of (some unauthorized, none)) (new_client "token") "GET"
      "/gateway/bot" 0 request refl unauthorized refl
