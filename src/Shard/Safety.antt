-- ===== src/Shard/Safety.antt =====
-- gateway/shard.go: when `connect` and Open do not panic.
use mathlib.Core.Path.{subst}
use sandwich_producer.Base.{
  ret, refl, leb_ℤ, true, bad_ticker_interval, Checks, ℕ, ℤ, pos, ◌≡◌, ◌≢◌, ◌↔◌, inl, inr,
  Option-cases, panic, Panic, nil_dereference, ◌<ℤ◌, List, [], Option, none, some, GoError, arith,
  All, Returns, Returns-mono, Returns-Ensures, Returns-Checks, Checks-Returns, eqb_ℤ_iff,
}
use sandwich_producer.Events.Packets.{GatewayBot, SentPayload}
use sandwich_producer.Identify.{identify_key, go_rem}
use sandwich_producer.Shard.{
  decode_content, Libraries, State, ReadReply, ws_write_json, read_message,
}
use sandwich_producer.Shard.Connect.{
  Upstream, Attempt, opening, connect, open_shard, ticker_interval,
}
use sandwich_producer.Shard.Close.{connect-dial_failed}
use sandwich_producer.Shard.Liveness.{heartbeat_packet}
use sandwich_producer.Shard.Walk.{Stages}
use sandwich_producer.Shard.Walk.Connections.{connect-Ended, open_shard-Ended}
use sandwich_producer.Shard.Protocol.{Rests}
use sandwich_producer.Shard.Protocol.Connections.{open_shard-Rests}

-- The shard has a connection.
abbrev pub IsConnected : State → Type 0
IsConnected s = (c : ℕ) × (s.shard.ws_conn ≡ some c)

-- A dial gives a connection.
abbrev pub IsDialled : Attempt → Type 0
IsDialled a = (c : ℕ) × (a.dial.conn ≡ some c)

-- The first message of a connection, if it can be read and decoded, is a hello with a positive interval.
abbrev pub GreetsWell : Libraries → Attempt → Type 0
GreetsWell lib a =
    (s s' : State)
    → read_message lib a.hello_read s ≡ ret (none, s')
    → (decode_content lib (record { heartbeat_interval = pos 0 }) s').1 ≡ none
    → pos 0 <ℤ ticker_interval (decode_content lib (record { heartbeat_interval = pos 0 }) s').0

module _ (lib : Libraries) where
  ws_write_json-conn :
      (p : SentPayload) (reply : Option GoError) (s : State) (c : ℕ)
      → s.shard.ws_conn ≡ some c
      → Returns (λ r. r.1.shard.ws_conn ≡ some c) (ws_write_json lib p reply s)
  unfolding ws_write_json
  ws_write_json-conn p reply s c e = ground arith

  read_message-conn :
      (r : ReadReply) (s : State) (c : ℕ)
      → s.shard.ws_conn ≡ some c
      → Returns (λ x. x.1.shard.ws_conn ≡ some c) (read_message lib r s)
  unfolding read_message
  read_message-conn r s c e = ground arith

  ws_write_json-IsConnected :
      (p : SentPayload) (reply : Option GoError) (s : State)
      → IsConnected s
      → Returns (λ r. IsConnected r.1) (ws_write_json lib p reply s)
  ws_write_json-IsConnected p reply s (c, e) =
      Returns-mono (λ r. r.1.shard.ws_conn ≡ some c) (λ r. IsConnected r.1) _ (λ r h. (c, h))
        (ws_write_json-conn p reply s c e)

  read_message-IsConnected :
      (r : ReadReply) (s : State)
      → IsConnected s
      → Returns (λ x. IsConnected x.1) (read_message lib r s)
  read_message-IsConnected r s (c, e) =
      Returns-mono (λ x. x.1.shard.ws_conn ≡ some c) (λ x. IsConnected x.1) _ (λ x h. (c, h))
        (read_message-conn r s c e)

  module _ (up : Upstream) (g : GatewayBot) (known : up.gateway ≡ some g)
      (nonzero : g.session_start_limit.max_concurrency ≢ pos 0) where
    identify_key-Returns : (id : ℤ) → Returns (λ _. Unit {0}) (identify_key up.gateway id)
    unfolding identify_key go_rem
    identify_key-Returns id =
        ground (arith, known, eqb_ℤ_iff g.session_start_limit.max_concurrency (pos 0))

    -- Nothing is asked of a state in which a connection is over. What is asked of a panic is left open
    -- for that of the ticker.
    stages :
        (ok : Panic → Type 0) (Dials : Attempt → Type 0)
        → ((a : Attempt) → Dials a → IsDialled a)
        → ((a : Attempt) (s s' : State)
            → Dials a
            → read_message lib a.hello_read s ≡ ret (none, s')
            → (decode_content lib (record { heartbeat_interval = pos 0 }) s').1 ≡ none
            → leb_ℤ
                (ticker_interval (decode_content lib (record { heartbeat_interval = pos 0 }) s').0)
                (pos 0)
              ≡ true
            → ok bad_ticker_interval)
        → Stages lib up ok Dials
    stages ok Dials dials ticks = record {
      Dialled = IsConnected;
      Greeted = IsConnected;
      Live = IsConnected;
      Over = λ s. Unit {0};
      dialled_over = λ s h. tt;
      greeted_over = λ s h. tt;
      live_over = λ s h. tt;
      keyed = λ id. Returns-Checks ok (λ _. Unit {0}) _ (identify_key-Returns id);
      refused = λ a d e. absurd (let (c, e') = dials a d in ground (arith, e, e'));
      begins = λ a key c s e h. (c, e);
      greets = λ r s h. Returns-Checks ok (λ x. IsConnected x.1) _ (read_message-IsConnected r s h);
      ticks = ticks;
      opens = λ reply s h.
          Returns-Checks ok (λ r. Unit {0} × (r.0 ≡ none → IsConnected r.1)) _
            (Returns-mono (λ r. IsConnected r.1) (λ r. Unit {0} × (r.0 ≡ none → IsConnected r.1)) _
              (λ r g. (tt, λ _. g)) (ws_write_json-IsConnected (opening lib up s.shard) reply s h));
      beats = λ reply s h.
          Returns-Checks ok (λ r. IsConnected r.1) _
            (ws_write_json-IsConnected (heartbeat_packet s.shard.seq) reply s h);
      reads = λ r s h. Returns-Checks ok (λ x. IsConnected x.1) _ (read_message-IsConnected r s h);
      closes = λ code reply s h. tt;
    }

    -- A shard that nothing else uses never panics, and does everything in order, over all its
    -- connections: it is enough that the gateway is known with a concurrency other than 0, that every
    -- dial gives a connection, and that the first message on it, if it can be read and decoded, has a
    -- positive interval. Reads and writes that fail, and closes that fail, are no exception.
    pub open_shard-Returns :
        (attempts : List Attempt) (s : State)
        → All (λ a. IsDialled a × GreetsWell lib a) attempts
        → s.log ≡ []
        → Returns (λ x. Rests x.1) (open_shard lib up attempts s)
    unfolding stages
    open_shard-Returns attempts s h e =
        Returns-Ensures (λ x. Unit {0}) (λ x. Rests x.1) _
          (Checks-Returns (λ x. Unit {0}) _
            (open_shard-Ended
              (stages (λ _. ⊥) (λ a. IsDialled a × GreetsWell lib a) (λ a d. d.0)
                (λ a s s' d read fine bad. ground (arith, bad, d.1 s s' read fine)))
              attempts s h tt))
          (open_shard-Rests lib up attempts s e)

    -- On a manager that has fetched a gateway with a concurrency other than 0, `connect` dereferences a
    -- nil pointer exactly if its dial gives no connection. The error of such a dial is never returned.
    pub connect-panic_iff :
        (a : Attempt) (s : State)
        → (connect lib up a s ≡ panic nil_dereference) ↔ (a.dial.conn ≡ none)
    unfolding stages
    connect-panic_iff a s = (
      λ panics. elim (Option-cases a.dial.conn) [
        | inl failed ↦ failed
        | inr dialled ↦ absurd (
            subst (Checks (λ p. p ≢ nil_dereference) (λ _. Unit {0})) panics
              (connect-Ended
                (stages (λ p. p ≢ nil_dereference) IsDialled (λ a d. d)
                  (λ a s s' d read fine bad e. cc))
                a s dialled tt)
              refl)
      ],
      connect-dial_failed lib up a s g known nonzero,
    )
