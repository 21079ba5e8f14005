-- ===== src/Shard/Sharing.antt =====
-- gateway/shard.go: a shard that the goroutine of its Open and the goroutines of Stop use at once. Each
-- access to the connection's field is a step, with what the network, the clock and the ticker answer to
-- the call that follows it. Nothing guards the field.
pub mod Crashes
pub mod Revival
pub mod Rounds
use sandwich_producer.Base.{
  ℕ, ◌*◌, ◌^◌, ℤ, pos, leb_ℤ, ◌&&◌, ◌||◌, not, if◌then◌else◌, List, [], ◌∷◌, Option, none, some,
  set, ret, panic, Panic, nil_dereference, bad_ticker_interval, GoError, get_elem?,
}
use sandwich_producer.Events.Codes.{op_code, heartbeat}
use sandwich_producer.Events.Packets.{beats}
use sandwich_producer.Identify.{identify_key}
use sandwich_producer.Shard.{
  Libraries, State, closes, waits_identify, takes_ticket, frees_ticket, dials, sets_read_limit,
  record_action, conn_of, ws_write_json, ReadReply, read_message, decode_content, can_continue,
}
use sandwich_producer.Shard.Connect.{
  Upstream, DialReply, url_of, ack_is_late, heartbeat_failures, ticker_interval, is_error, opening,
}

-- Where a call of Close is.
pub data ClosePc : Type 0 where
  testing : ClosePc
  calling : ClosePc
  answered : Option GoError → ClosePc
  unconnected : ClosePc
  refused : GoError → ClosePc
  cleared : ClosePc
  broken : ClosePc

-- `if s.wsConn != nil`, `s.wsConn.Close(4000, "")` and `s.wsConn = nil`. `reply` is what the call of
-- the library returns.
unfoldable pub close_step : Option GoError → ClosePc → State → State × ClosePc
close_step reply testing s = elim s.shard.ws_conn [
  | none ↦ (s, unconnected)
  | some c ↦ (s, calling)
]
close_step reply calling s = elim s.shard.ws_conn [
  | none ↦ (s, broken)
  | some c ↦ (record_action (closes 4000) s, answered reply)
]
close_step reply (answered (some e)) s = (s, refused e)
close_step reply (answered none) s =
    (record s { shard = record s.shard { ws_conn = none } }, cleared)
close_step reply pc s = (s, pc)

-- Where Open is: between two connections, in one of the calls of `connect` that use the connection, in
-- the Close of a late heartbeat, behind a `connect` that has returned its error, or at an end.
pub data LoopPc : Type 0 where
  idle : LoopPc
  limiting : Option GoError → LoopPc
  greeting : LoopPc
  introducing : (failures : ℤ) → LoopPc
  selecting : (failures : ℤ) → LoopPc
  reading : (failures : ℤ) → LoopPc
  ending : Option GoError → ClosePc → LoopPc
  exited : Option GoError → LoopPc
  ended : Option GoError → LoopPc
  crashed : Panic → LoopPc

-- What the calls of one step are answered, and whether the ticker has fired.
pub record Answer : Type 0 where
  pub dial : DialReply
  pub read : ReadReply
  pub written : Option GoError
  pub closed : Option GoError
  pub tick : Option ℤ

module _ (lib : Libraries) (up : Upstream) where
  -- Open looks at what `connect` has returned, and calls it again if the shard can go on.
  unfoldable pub reopen_step : Option GoError → LoopPc
  reopen_step err = if can_continue lib err then idle else ended err

  -- The waits, and the dial.
  unfoldable pub dial_step : DialReply → State → State × LoopPc
  dial_step d s = elim (identify_key up.gateway s.shard.shard_id) [
    | panic p ↦ (s, crashed p)
    | ret key ↦ (
      record {
        shard = record s.shard { ws_conn = d.conn };
        log = dials (url_of up.gateway) ∷ frees_ticket ∷ takes_ticket ∷ waits_identify key ∷ s.log;
      },
      limiting d.err,
    )
  ]

  -- `s.wsConn.SetReadLimit(512 << 20)`, and then the test of the dial's error.
  unfoldable pub limit_step : Option GoError → State → State × LoopPc
  limit_step err s = elim (conn_of s.shard) [
    | panic p ↦ (s, crashed p)
    | ret c ↦
        let s' : State = record_action (sets_read_limit (512 * 2 ^ 20)) s in
        elim err [ none ↦ (s', greeting) | some e ↦ (s', exited (some e)) ]
  ]

  unfoldable pub greet_step : ReadReply → State → State × LoopPc
  greet_step r s = elim (read_message lib r s) [
    | panic p ↦ (s, crashed p)
    | ret (some e, s') ↦ (s', exited (some e))
    | ret (none, s') ↦
        let (h, bad) = decode_content lib (record { heartbeat_interval = pos 0 }) s' in
        elim bad [
          | some e ↦ (s', exited (some e))
          | none ↦
              if leb_ℤ (ticker_interval h) (pos 0) then (s', crashed bad_ticker_interval) else (
                s',
                introducing (heartbeat_failures (ticker_interval h) up.max_heartbeat_failures),
              )
        ]
  ]

  unfoldable pub introduce_step : ℤ → Option GoError → State → State × LoopPc
  introduce_step failures written s = elim (ws_write_json lib (opening lib up s.shard) written s) [
    | panic p ↦ (s, crashed p)
    | ret (some e, s') ↦ (s', exited (some e))
    | ret (none, s') ↦ (s', selecting failures)
  ]

  -- The `ticker.C` case up to its Close.
  unfoldable pub beat_step : ℤ → ℤ → Option GoError → State → State × LoopPc
  beat_step failures now written s =
      elim (ws_write_json lib (record { op = op_code heartbeat; content = beats s.shard.seq })
        written s) [
          | panic p ↦ (s, crashed p)
          | ret (err, s') ↦
              if is_error err || ack_is_late now s'.shard.last_heartbeat_ack failures
              then (s', ending err testing)
              else (s', reading failures)
        ]

  -- The context is not cancelled before `connect` returns, so that the select has two cases left.
  unfoldable pub select_step : ℤ → Answer → State → State × LoopPc
  unfolding beat_step
  select_step failures a s = elim a.tick [
    | none ↦ (s, reading failures)
    | some now ↦ beat_step failures now a.written s
  ]

  unfoldable pub read_step : ℤ → ReadReply → State → State × LoopPc
  read_step failures r s = elim (read_message lib r s) [
    | panic p ↦ (s, crashed p)
    | ret (err, s') ↦
        if is_error err && not (can_continue lib err)
        then (s', exited err)
        else (s', selecting failures)
  ]

  -- What follows a step of the Close: the bare `return`, once it is over.
  abbrev pub after_close : Option GoError → State × ClosePc → State × LoopPc
  after_close err (s, testing) = (s, ending err testing)
  after_close err (s, calling) = (s, ending err calling)
  after_close err (s, answered reply) = (s, ending err (answered reply))
  after_close err (s, broken) = (s, crashed nil_dereference)
  after_close err (s, unconnected) = (s, exited err)
  after_close err (s, refused e) = (s, exited err)
  after_close err (s, cleared) = (s, exited err)

  -- One step of Open.
  unfoldable pub loop_step : Answer → LoopPc → State → State × LoopPc
  unfolding dial_step close_step limit_step greet_step introduce_step select_step read_step
      reopen_step
  loop_step a idle s = dial_step a.dial s
  loop_step a (limiting err) s = limit_step err s
  loop_step a greeting s = greet_step a.read s
  loop_step a (introducing failures) s = introduce_step failures a.written s
  loop_step a (selecting failures) s = select_step failures a s
  loop_step a (reading failures) s = read_step failures a.read s
  loop_step a (ending err pc) s = after_close err (close_step a.closed pc s)
  loop_step a (exited err) s = (s, reopen_step err)
  loop_step a (ended err) s = (s, ended err)
  loop_step a (crashed p) s = (s, crashed p)

-- The shard, its Open, and the calls of Close that Stop makes.
pub record World : Type 0 where
  pub state : State
  pub loop : LoopPc
  pub stops : List ClosePc

-- Which goroutine takes a step.
pub data Event : Type 0 where
  loops : Answer → Event
  stops : ℕ → Option GoError → Event

module _ (lib : Libraries) (up : Upstream) where
  unfoldable pub step : Event → World → World
  unfolding loop_step close_step
  step (loops a) w =
      let (s, pc) = loop_step lib up a w.loop w.state in record w { state = s; loop = pc }
  step (stops i reply) w = elim (get_elem? w.stops i) [
    | none ↦ w
    | some pc ↦
        let (s, pc') = close_step reply pc w.state in
        record w { state = s; stops = set w.stops i pc' }
  ]

  unfoldable pub run : List Event → World → World
  unfolding step
  run [] w = w
  run (e ∷ events) w = run events (step e w)
