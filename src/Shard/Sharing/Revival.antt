-- ===== src/Shard/Sharing/Revival.antt =====
-- gateway/shard.go and gateway/shard_group.go: a Stop during a heartbeat.
use sandwich_producer.Base.{
  ℕ, ℤ, pos, ◌*◌, ◌^◌, ◌≡◌, refl, ◌<ℤ◌, List, [], ◌∷◌, Option, none, some, arith, GoError, ret,
}
use sandwich_producer.Events.Packets.{SentPayload, Hello, ReceivedPayload}
use sandwich_producer.Identify.{identify_key}
use sandwich_producer.Shard.{
  Libraries, State, record_action, dials, frees_ticket, takes_ticket, waits_identify, closes,
  writes, reads, sets_read_limit, message_text, conn_of, ws_write_json, read_message,
  decode_message, unmarshal_msg, decode_content,
}
use sandwich_producer.Shard.Connect.{Upstream, url_of, opening, ticker_interval, heartbeat_failures}
use sandwich_producer.Shard.Continue.{can_continue_always}
use sandwich_producer.Shard.Liveness.{heartbeat_packet}
use sandwich_producer.Shard.Sharing.{
  ClosePc, testing, calling, answered, cleared, close_step, LoopPc, idle, limiting, greeting,
  introducing, selecting, ending, exited, reopen_step, Answer, dial_step, limit_step, greet_step,
  introduce_step, beat_step, select_step, loop_step, World, Event, loops, stops, step, run,
}

-- The answers of the network on the way to a new connection `c`, with a hello.
abbrev pub answer : ℕ → List ℕ → GoError → Option ℤ → Option GoError → Answer
answer c bytes e tick written = record {
  dial = record { conn = some c; err = none };
  read = record { message_type = message_text; bytes = bytes; err = none };
  written = written;
  closed = some e;
  tick = tick;
}

-- The answers of the network from the loss of the old connection on, with no heartbeat due.
abbrev pub quiet : ℕ → List ℕ → GoError → Answer
quiet new bytes lost = answer new bytes lost none none

-- A Stop finds a connection and closes it. Before the Stop clears the connection, the write of a heartbeat
-- fails, its Close finds the connection there and fails too, `connect` returns, and Open is to go on.
-- Then the Stop clears the connection and returns, and Open dials and goes through a handshake.
abbrev pub race : ℕ → List ℕ → GoError → ℤ → List Event
race new bytes lost now =
    stops 0 none
    ∷ stops 0 none
    ∷ loops (answer new bytes lost (some now) (some lost))
    ∷ loops (quiet new bytes lost)
    ∷ loops (quiet new bytes lost)
    ∷ loops (quiet new bytes lost)
    ∷ loops (quiet new bytes lost)
    ∷ stops 0 none
    ∷ loops (quiet new bytes lost)
    ∷ loops (quiet new bytes lost)
    ∷ loops (quiet new bytes lost)
    ∷ loops (quiet new bytes lost)
    ∷ []

-- The shard with another connection, or none.
abbrev on : Option ℕ → State → State
on c s = record s { shard = record s.shard { ws_conn = c } }

-- A shard with one call of Stop.
abbrev pub with_stop : State → LoopPc → ClosePc → World
with_stop s pc call = record { state = s; loop = pc; stops = call ∷ [] }

module _ (lib : Libraries) (up : Upstream) where
  -- Steps one after the other, of the loop and of the Stop.
  data Runs : List Event → State → LoopPc → ClosePc → State → LoopPc → ClosePc → Type 0 where
    over : {s : State} {pc : LoopPc} {call : ClosePc} → Runs [] s pc call s pc call
    loop :
        (a : Answer) {events : List Event} {s s' t : State} {pc pc' pcₜ : LoopPc}
        {call callₜ : ClosePc}
        → loop_step lib up a pc s ≡ (s', pc')
        → Runs events s' pc' call t pcₜ callₜ
        → Runs (loops a ∷ events) s pc call t pcₜ callₜ
    stop :
        {events : List Event} {s s' t : State} {pc pcₜ : LoopPc} {call call' callₜ : ClosePc}
        → close_step none call s ≡ (s', call')
        → Runs events s' pc call' t pcₜ callₜ
        → Runs (stops 0 none ∷ events) s pc call t pcₜ callₜ

  run-Runs :
      {events : List Event} {s t : State} {pc pcₜ : LoopPc} {call callₜ : ClosePc}
      → Runs events s pc call t pcₜ callₜ
      → run lib up events (with_stop s pc call) ≡ with_stop t pcₜ callₜ
  unfolding run step
  run-Runs over = refl
  run-Runs (loop a first rest) = rw (run, step, first) (run-Runs rest)
  run-Runs (stop first rest) = rw (run, step, first) (run-Runs rest)

  module _ (s : State) (c : ℕ) (connected : s.shard.ws_conn ≡ some c) (a : Answer) where
    beats_lem :
        (failures now : ℤ) (lost : GoError)
        → (lib.marshal (heartbeat_packet s.shard.seq)).1 ≡ none
        → a.tick ≡ some now
        → a.written ≡ some lost
        → loop_step lib up a (selecting failures) s
          ≡ (record_action (writes (heartbeat_packet s.shard.seq)) s, ending (some lost) testing)
    unfolding loop_step select_step beat_step ws_write_json conn_of
    beats_lem failures now lost marshals ticks fails =
        ground (arith, connected, marshals, ticks, fails)

    calls_lem :
        (err : Option GoError)
        → loop_step lib up a (ending err calling) s
          ≡ (record_action (closes 4000) s, ending err (answered a.closed))
    unfolding loop_step close_step
    calls_lem err = ground (arith, connected)

    tests_lem :
        (err : Option GoError) → loop_step lib up a (ending err testing) s ≡ (s, ending err calling)
    unfolding loop_step close_step
    tests_lem err = ground (arith, connected)

    limits_lem :
        loop_step lib up a (limiting none) s
        ≡ (record_action (sets_read_limit (512 * 2 ^ 20)) s, greeting)
    unfolding loop_step limit_step conn_of
    limits_lem = ground (arith, connected)

    introduces_lem :
        (failures : ℤ)
        → (lib.marshal (opening lib up s.shard)).1 ≡ none
        → a.written ≡ none
        → loop_step lib up a (introducing failures) s
          ≡ (record_action (writes (opening lib up s.shard)) s, selecting failures)
    unfolding loop_step introduce_step ws_write_json conn_of
    introduces_lem failures marshals written = ground (arith, connected, marshals, written)

    greets_lem :
        (m : ReceivedPayload) (h : Hello)
        → a.read.message_type ≡ message_text
        → a.read.err ≡ none
        → lib.unmarshal_payload a.read.bytes s.shard.msg ≡ (m, none)
        → lib.unmarshal_hello m.raw (record { heartbeat_interval = pos 0 }) ≡ (h, none)
        → pos 0 <ℤ ticker_interval h
        → loop_step lib up a greeting s ≡ (
          record { shard = record s.shard { buf = a.read.bytes; msg = m }; log = reads ∷ s.log },
          introducing (heartbeat_failures (ticker_interval h) up.max_heartbeat_failures),
        )
    unfolding loop_step greet_step read_message conn_of decode_message unmarshal_msg decode_content
    greets_lem m h texts fine read greeted positive =
        ground (arith, connected, texts, fine, read, greeted, positive)

  stop_tests :
      (s : State) {c : ℕ} → s.shard.ws_conn ≡ some c → close_step none testing s ≡ (s, calling)
  unfolding close_step
  stop_tests s connected = ground (arith, connected)

  stop_calls :
      (s : State) {c : ℕ}
      → s.shard.ws_conn ≡ some c
      → close_step none calling s ≡ (record_action (closes 4000) s, answered none)
  unfolding close_step
  stop_calls s connected = ground (arith, connected)

  stop_clears : (s : State) → close_step none (answered none) s ≡ (on none s, cleared)
  unfolding close_step
  stop_clears s = refl

  refuses_lem :
      (s : State) (a : Answer) (err : Option GoError) (e : GoError)
      → loop_step lib up a (ending err (answered (some e))) s ≡ (s, exited err)
  unfolding loop_step close_step
  refuses_lem s a err e = refl

  reopens_lem :
      (s : State) (a : Answer) (err : Option GoError)
      → loop_step lib up a (exited err) s ≡ (s, idle)
  unfolding loop_step reopen_step
  reopens_lem s a err = ground (arith, can_continue_always lib err)

  dials_lem :
      (s : State) (a : Answer) (key : ℤ)
      → identify_key up.gateway s.shard.shard_id ≡ ret key
      → loop_step lib up a idle s ≡ (
        record {
          shard = record s.shard { ws_conn = a.dial.conn };
          log =
              dials (url_of up.gateway) ∷ frees_ticket ∷ takes_ticket ∷ waits_identify key ∷ s.log;
        },
        limiting a.dial.err,
      )
  unfolding loop_step dial_step
  dials_lem s a key known = ground (arith, known)

  -- A Stop can return without an error and leave the shard with a connection that it goes on to listen
  -- to. In the order of `race`, the write of a heartbeat fails between the Stop's call of the library's
  -- Close and its clearing of the connection, and the heartbeat's own Close fails, since the connection is
  -- closed already. Open then dials again, after the Stop has returned: the shard is back in its loop
  -- with the new connection. It is asked that every packet can be marshalled, that the shard's position
  -- to identify is known, that the dial and the handshake succeed, and that the hello can be decoded and
  -- has a positive interval.
  pub stop_revives :
      (s : State) (failures now : ℤ) (c new : ℕ) (lost : GoError) (key : ℤ) (bytes : List ℕ)
      (m : ReceivedPayload) (h : Hello)
      → s.shard.ws_conn ≡ some c
      → ((p : SentPayload) → (lib.marshal p).1 ≡ none)
      → identify_key up.gateway s.shard.shard_id ≡ ret key
      → lib.unmarshal_payload bytes s.shard.msg ≡ (m, none)
      → lib.unmarshal_hello m.raw (record { heartbeat_interval = pos 0 }) ≡ (h, none)
      → pos 0 <ℤ ticker_interval h
      → (s' : State) × (run lib up
            (race new bytes lost now)
            (with_stop s (selecting failures) testing)
          ≡ with_stop s'
              (selecting (heartbeat_failures (ticker_interval h) up.max_heartbeat_failures))
              cleared)
        × (s'.shard.ws_conn ≡ some new)
  stop_revives s failures now c new lost key bytes m h connected marshals known read greeted
        positive =
      (
        _,
        run-Runs (
            stop (stop_tests s connected) (
              stop (stop_calls s connected) (
                loop (answer new bytes lost (some now) (some lost))
                  (beats_lem (record_action (closes 4000) s) c connected _ failures now lost
                    (marshals _) refl refl)
                  (loop next (tests_lem _ c connected _ _) (
                    loop next (calls_lem _ c connected _ _) (
                      loop next (refuses_lem _ _ _ lost) (
                        loop next (reopens_lem _ _ _) (
                          stop (stop_clears _) (
                            loop next (dials_lem _ _ key known) (
                              loop next (limits_lem _ new refl _) (
                                loop next
                                  (greets_lem _ new refl _ m h refl refl read greeted positive)
                                  (loop next (introduces_lem _ new refl _ _ (marshals _) refl)
                                    over)))))))))))),
        refl,
      )
    where
      next : Answer
      next = quiet new bytes lost
