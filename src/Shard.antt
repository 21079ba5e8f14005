-- ===== src/Shard.antt =====
-- gateway/shard.go: a shard and its operations on one gateway connection. Every operation takes the
-- state and what the network answers, and returns the state after it; calls that act on something
-- outside the shard are recorded in the log, newest first.
pub mod Connect
pub mod Continue
pub mod Session
pub mod Liveness
pub mod Close
pub mod Walk
pub mod Protocol
pub mod Safety
pub mod Sharing
use sandwich_producer.Base.{
  ℕ, ℤ, pos, eqb_ℤ, Bool, true, false, ◌&&◌, ◌||◌, not, List, [], ◌∷◌, Option, none, some, String,
  str_eq, Outcome, ret, panic, nil_dereference, ◌>>=◌, GoError, reconnect_please,
}
use sandwich_producer.Events.Codes.{
  close_code, sharding_required, authentication_failed, invalid_shard,
}
use sandwich_producer.Utils.{Interface, int, status_code, contains}
use sandwich_producer.Events.Presence.{zero_activity}
use sandwich_producer.Events.Packets.{ReceivedPayload, SentPayload, Identify, Hello}

-- The libraries that a shard calls (nhooyr.io/websocket, json-iterator, czlib) and the platform.
-- A `Unmarshal` gets the value it fills, since fields that the text leaves out keep theirs.
pub record Libraries : Type 0 where
  pub close_status : Option GoError → ℤ
  pub status_normal_closure : ℤ
  pub marshal : SentPayload → List ℕ × Option GoError
  pub unmarshal_payload : List ℕ → ReceivedPayload → ReceivedPayload × Option GoError
  pub unmarshal_hello : List ℕ → Hello → Hello × Option GoError
  pub decompress : List ℕ → List ℕ × Option GoError
  pub goos : String

-- A connection is known by a number; `none` is the nil *websocket.Conn.
pub record Shard : Type 0 where
  pub token : String
  pub shard_id : ℤ
  pub shard_count : ℤ
  pub last_heartbeat_ack : ℤ
  pub last_heartbeat_sent : ℤ
  pub ws_conn : Option ℕ
  pub msg : ReceivedPayload
  pub buf : List ℕ
  pub seq : ℤ
  pub session_id : String

-- What a shard does outside itself.
pub data Action : Type 0 where
  waits_identify : ℤ → Action
  takes_ticket : Action
  frees_ticket : Action
  dials : String → Action
  sets_read_limit : ℕ → Action
  writes : SentPayload → Action
  reads : Action
  closes : ℕ → Action

pub record State : Type 0 where
  pub shard : Shard
  pub log : List Action

abbrev pub record_action : Action → State → State
record_action a s = record s { log = a ∷ s.log }

-- The methods of *websocket.Conn read their receiver's fields, so a nil receiver panics.
unfoldable pub conn_of : Shard → Outcome ℕ
conn_of sh = elim sh.ws_conn [ none ↦ panic nil_dereference | some c ↦ ret c ]

-- WSWriteJSON. `reply` is what `wsConn.Write` returns, if it is called.
unfoldable pub ws_write_json :
    Libraries → SentPayload → Option GoError → State → Outcome (Option GoError × State)
unfolding conn_of
ws_write_json lib p reply s = elim (lib.marshal p).1 [
  | some e ↦ ret (some e, s)
  | none ↦ conn_of s.shard >>= λ c. ret (reply, record_action (writes p) s)
]

pub data MessageType : Type 0 where
  message_text message_binary : MessageType

-- What `wsConn.Read` returns.
pub record ReadReply : Type 0 where
  pub message_type : MessageType
  pub bytes : List ℕ
  pub err : Option GoError

unfoldable pub unmarshal_msg : Libraries → State → Option GoError × State
unmarshal_msg lib s =
    let (m, err) = lib.unmarshal_payload s.shard.buf s.shard.msg in
    (err, record s { shard = record s.shard { msg = m } })

unfoldable pub decode_message : Libraries → MessageType → State → Option GoError × State
unfolding unmarshal_msg
decode_message lib message_text s = unmarshal_msg lib s
decode_message lib message_binary s =
    let (b, err) = lib.decompress s.shard.buf in
    let s' : State = record s { shard = record s.shard { buf = b } } in
    elim err [ some e ↦ (some e, s') | none ↦ unmarshal_msg lib s' ]

-- readMessage; its warning about a slow read is left out.
unfoldable pub read_message : Libraries → ReadReply → State → Outcome (Option GoError × State)
unfolding conn_of decode_message
read_message lib r s = conn_of s.shard >>= λ c.
    let s' : State = record { shard = record s.shard { buf = r.bytes }; log = reads ∷ s.log } in
    elim r.err [ some e ↦ ret (some e, s') | none ↦ ret (decode_message lib r.message_type s') ]

-- decodeContent, at the type that `connect` decodes to.
unfoldable pub decode_content : Libraries → Hello → State → Hello × Option GoError
decode_content lib h s = lib.unmarshal_hello s.shard.msg.raw h

-- Close. The status code that it is given only reaches the log message of the source.
unfoldable pub close : ℤ → Option GoError → State → Option GoError × State
close code reply s = elim s.shard.ws_conn [
  | none ↦ (none, s)
  | some c ↦ elim reply [
    | some e ↦ (some e, record_action (closes 4000) s)
    | none ↦ (none, record { shard = record s.shard { ws_conn = none }; log = closes 4000 ∷ s.log })
  ]
]

unfoldable pub can_resume : Shard → Bool
can_resume sh = not (eqb_ℤ sh.seq (pos 0)) && not (str_eq sh.session_id "")

unfoldable pub identify_packet : Libraries → String → Shard → Identify
identify_packet lib manager_token sh = record {
  token = manager_token;
  properties = record { os = lib.goos; browser = "Sandwich"; device = "Sandwich" };
  compress = true;
  large_threshold = pos 100;
  shard = (sh.shard_id, sh.shard_count);
  presence = zero_activity;
  guild_subscriptions = false;
  intents = pos 0;
}

-- WaitForReady waits for nothing.
unfoldable pub wait_for_ready : Shard → Option GoError
wait_for_ready sh = none

-- `err == ErrReconnectPlease`
abbrev pub is_reconnect_please : Option GoError → Bool
is_reconnect_please (some reconnect_please) = true
is_reconnect_please _ = false

-- The close codes are untyped constants, hence `int`; the other two are a websocket.StatusCode.
abbrev pub refusals : Libraries → List Interface
refusals lib =
    int (pos (close_code sharding_required))
    ∷ int (pos (close_code authentication_failed))
    ∷ int (pos (close_code invalid_shard))
    ∷ status_code lib.status_normal_closure
    ∷ []

unfoldable pub can_continue : Libraries → Option GoError → Bool
unfolding contains
can_continue lib err =
    is_reconnect_please err || not (contains (status_code (lib.close_status err)) (refusals lib))
