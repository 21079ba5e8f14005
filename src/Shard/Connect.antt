-- ===== src/Shard/Connect.antt =====
-- gateway/shard.go, `connect` and `Open`: one connection from its dial to its end, and the loop that
-- connects again. What the network, the clock and the ticker answer is a script; a script that is
-- used up means that the call is still running.
use sandwich_producer.Base.{
  ℕ, ℤ, pos, ◌*ℤ◌, ◌-ℤ◌, wrap64, saturate64, ltb_ℤ, leb_ℤ, eqb_ℤ, Bool, true, false, ◌&&◌, ◌||◌,
  not, List, [], ◌∷◌, Option, none, some, String, str_eq, if◌then◌else◌, Outcome, ret, panic,
  bad_ticker_interval, nil_dereference, ◌>>=◌, GoError, ◌*◌, ◌^◌,
}
use sandwich_producer.Events.Codes.{op_code, heartbeat, identify, resume}
use sandwich_producer.Events.Packets.{GatewayBot, SentPayload, identifies, resumes, beats, Hello}
use sandwich_producer.Identify.{identify_key}
use sandwich_producer.Shard.{
  Libraries, Shard, State, waits_identify, takes_ticket, frees_ticket, dials, sets_read_limit,
  record_action, ws_write_json, ReadReply, read_message, decode_content, close, identify_packet,
  can_continue,
}

-- What `connect` reads of the manager.
pub record Upstream : Type 0 where
  pub token : String
  pub gateway : Option GatewayBot
  pub max_heartbeat_failures : ℤ

-- The ready case of the `select`: the context is done, the ticker has fired, or neither.
pub data Select : Type 0 where
  ctx_done : Select
  tick : (now : ℤ) (written closed : Option GoError) → Select
  default : Select

-- One round of the loop: the `select`, and the answer to the read that follows it.
pub record Turn : Type 0 where
  pub select : Select
  pub read : ReadReply

pub data Exit : Type 0 where
  returned : Option GoError → Exit
  running : Exit

abbrev millisecond : ℤ
millisecond = pos 1000000

unfoldable pub ticker_interval : Hello → ℤ
ticker_interval h = wrap64 (h.heartbeat_interval *ℤ millisecond)

-- `HeartbeatInterval * (time.Duration(MaxHeartbeatFailures) * time.Millisecond)`
unfoldable pub heartbeat_failures : ℤ → ℤ → ℤ
heartbeat_failures interval failures = wrap64 (interval *ℤ wrap64 (failures *ℤ millisecond))

-- `time.Now().UTC().Sub(lastAck) > heartbeatFailures`
unfoldable pub ack_is_late : ℤ → ℤ → ℤ → Bool
ack_is_late now last_ack failures = ltb_ℤ failures (saturate64 (now -ℤ last_ack))

abbrev pub is_error : Option GoError → Bool
is_error none = false
is_error (some e) = true

-- The `ticker.C` case: `some err` if the call returns with `err`.
unfoldable pub beat :
    Libraries
    → ℤ
    → ℤ
    → Option GoError
    → Option GoError
    → State
    → Outcome (Option Exit × Option GoError × State)
beat lib failures now written closed s =
    ws_write_json lib (record { op = op_code heartbeat; content = beats s.shard.seq }) written s
    >>= λ (err, s').
        if is_error err || ack_is_late now s'.shard.last_heartbeat_ack failures
        then ret (some (returned err), err, (close (pos 4000) closed s').1)
        else ret (none, err, s')

-- The `select`. `err` is the named result of `connect`, which a bare `return` returns.
unfoldable pub select_case :
    Libraries → ℤ → Select → Option GoError → State → Outcome (Option Exit × Option GoError × State)
select_case lib failures ctx_done err s = ret (some (returned err), err, s)
select_case lib failures (tick now written closed) err s = beat lib failures now written closed s
select_case lib failures default err s = ret (none, err, s)

-- The read after the `select`: an error ends the loop unless the shard can go on.
unfoldable pub read_case :
    Libraries → ReadReply → State → Outcome (Option Exit × Option GoError × State)
read_case lib r s = read_message lib r s >>= λ (err, s').
    if is_error err && not (can_continue lib err)
    then ret (some (returned err), err, s')
    else ret (none, err, s')

-- One round of the loop: `some` exit if it returns.
unfoldable pub round :
    Libraries → ℤ → Turn → Option GoError → State → Outcome (Option Exit × Option GoError × State)
round lib failures t err s = select_case lib failures t.select err s >>= λ (exit, err', s').
    elim exit [ some e ↦ ret (some e, err', s') | none ↦ read_case lib t.read s' ]

-- `for { select …; readMessage … }`
unfoldable pub listen : Libraries → ℤ → List Turn → Option GoError → State → Outcome (Exit × State)
listen lib failures [] err s = ret (running, s)
listen lib failures (t ∷ turns) err s = round lib failures t err s >>= λ (exit, err', s').
    elim exit [ some e ↦ ret (e, s') | none ↦ listen lib failures turns err' s' ]

-- The first packet: identify for a shard with no session, resume for one with a session.
unfoldable pub opening : Libraries → Upstream → Shard → SentPayload
unfolding identify_packet
opening lib up sh =
    if str_eq sh.session_id "" && eqb_ℤ sh.seq (pos 0)
    then record { op = op_code identify; content = identifies (identify_packet lib up.token sh) }
    else record {
      op = op_code resume;
      content = resumes (record { token = up.token; session_id = sh.session_id; seq = sh.seq });
    }

-- What follows a hello that was decoded.
unfoldable pub after_hello :
    Libraries → Upstream → Hello → Option GoError → List Turn → State → Outcome (Exit × State)
after_hello lib up h first_write turns s =
    let interval = ticker_interval h in
    if leb_ℤ interval (pos 0)
    then panic bad_ticker_interval
    else ws_write_json lib (opening lib up s.shard) first_write s >>= λ (err, s'). elim err [
      | some e ↦ ret (returned (some e), s')
      | none ↦ listen lib (heartbeat_failures interval up.max_heartbeat_failures) turns none s'
    ]

-- What follows the dial: the first message, read as a hello whatever its operation is.
unfoldable pub handshake :
    Libraries → Upstream → ReadReply → Option GoError → List Turn → State → Outcome (Exit × State)
handshake lib up hello_read first_write turns s = read_message lib hello_read s >>= λ (err, s₁).
    elim err [
      | some e ↦ ret (returned (some e), s₁)
      | none ↦
          let (h, bad) = decode_content lib (record { heartbeat_interval = pos 0 }) s₁ in
          elim bad [
            | some e ↦ ret (returned (some e), s₁)
            | none ↦ after_hello lib up h first_write turns s₁
          ]
    ]

-- What `websocket.Dial` returns.
pub record DialReply : Type 0 where
  pub conn : Option ℕ
  pub err : Option GoError

-- The answers that one connection gets.
pub record Attempt : Type 0 where
  pub dial : DialReply
  pub hello_read : ReadReply
  pub first_write : Option GoError
  pub turns : List Turn

-- `s.wsConn.SetReadLimit(512 << 20)` reads the new connection; the dial's error is looked at next.
unfoldable pub dialled : Libraries → Upstream → Attempt → State → Outcome (Exit × State)
dialled lib up a s = elim a.dial.conn [
  | none ↦ panic nil_dereference
  | some c ↦
      let s' : State = record_action (sets_read_limit (512 * 2 ^ 20)) s in
      elim a.dial.err [
        | some e ↦ ret (returned (some e), s')
        | none ↦ handshake lib up a.hello_read a.first_write a.turns s'
      ]
]

unfoldable pub url_of : Option GatewayBot → String
url_of none = ""
url_of (some g) = g.url

unfoldable pub connect : Libraries → Upstream → Attempt → State → Outcome (Exit × State)
connect lib up a s = identify_key up.gateway s.shard.shard_id >>= λ key. dialled lib up a (record {
  shard = record s.shard { ws_conn = a.dial.conn };
  log = dials (url_of up.gateway) ∷ frees_ticket ∷ takes_ticket ∷ waits_identify key ∷ s.log;
})

-- Open: `err = s.connect(); for s.canContinue(err) { err = s.connect() }`.
unfoldable pub open_shard : Libraries → Upstream → List Attempt → State → Outcome (Exit × State)
open_shard lib up [] s = ret (running, s)
open_shard lib up (a ∷ attempts) s = connect lib up a s >>= λ (exit, s'). elim exit [
  | running ↦ ret (running, s')
  | returned err ↦
      let again = open_shard lib up attempts s' in
      if can_continue lib err then again else ret (returned err, s')
]
