-- ===== src/Shard/Walk.antt =====
-- gateway/shard.go, `connect` and Open: what has to be shown of the calls of a connection for a property
-- to hold of all of it.
pub mod Loop
pub mod Connections
use sandwich_producer.Base.{
  Panic, nil_dereference, bad_ticker_interval, ret, ℕ, ℤ, pos, ◌≡◌, true, ◌∷◌, Option, none, some,
  GoError, Checks, ◌*◌, ◌^◌, leb_ℤ,
}
use sandwich_producer.Identify.{identify_key}
use sandwich_producer.Shard.{
  Libraries, State, waits_identify, takes_ticket, frees_ticket, dials, sets_read_limit, ReadReply,
  ws_write_json, read_message, close, record_action, decode_content,
}
use sandwich_producer.Shard.Connect.{Upstream, Attempt, opening, ticker_interval, url_of}
use sandwich_producer.Shard.Liveness.{heartbeat_packet}

-- The state with which `connect` starts to look at what its dial gave.
abbrev pub after_dial : Upstream → Attempt → ℤ → State → State
after_dial up a key s = record_action (sets_read_limit (512 * 2 ^ 20)) (record {
  shard = record s.shard { ws_conn = a.dial.conn };
  log = dials (url_of up.gateway) ∷ frees_ticket ∷ takes_ticket ∷ waits_identify key ∷ s.log;
})

-- The stages of a connection, as what holds of the state in each: after the dial, after the first
-- message, in the loop, and when it is over. `ok` is asked of the panic wherever a call panics, and `Dials` is known
-- of each attempt.
pub record Stages (lib : Libraries) (up : Upstream) (ok : Panic → Type 0) (Dials : Attempt → Type 0)
    : Type 1 where
  pub Dialled : State → Type 0
  pub Greeted : State → Type 0
  pub Live : State → Type 0
  pub Over : State → Type 0
  pub dialled_over : (s : State) → Dialled s → Over s
  pub greeted_over : (s : State) → Greeted s → Over s
  pub live_over : (s : State) → Live s → Over s
  pub keyed : (id : ℤ) → Checks ok (λ _. Unit {0}) (identify_key up.gateway id)
  pub refused : (a : Attempt) → Dials a → a.dial.conn ≡ none → ok nil_dereference
  pub begins :
      (a : Attempt) (key : ℤ) (c : ℕ) (s : State)
      → a.dial.conn ≡ some c
      → Over s
      → Dialled (after_dial up a key s)
  pub greets :
      (r : ReadReply) (s : State) → Dialled s → Checks ok (λ x. Greeted x.1) (read_message lib r s)
  pub ticks :
      (a : Attempt) (s s' : State)
      → Dials a
      → read_message lib a.hello_read s ≡ ret (none, s')
      → (decode_content lib (record { heartbeat_interval = pos 0 }) s').1 ≡ none
      → leb_ℤ
          (ticker_interval (decode_content lib (record { heartbeat_interval = pos 0 }) s').0)
          (pos 0)
        ≡ true
      → ok bad_ticker_interval
  pub opens :
      (reply : Option GoError) (s : State)
      → Greeted s
      → Checks ok
          (λ r. Over r.1 × (r.0 ≡ none → Live r.1))
          (ws_write_json lib (opening lib up s.shard) reply s)
  pub beats :
      (reply : Option GoError) (s : State)
      → Live s
      → Checks ok (λ r. Live r.1) (ws_write_json lib (heartbeat_packet s.shard.seq) reply s)
  pub reads :
      (r : ReadReply) (s : State) → Live s → Checks ok (λ x. Live x.1) (read_message lib r s)
  pub closes :
      (code : ℤ) (reply : Option GoError) (s : State) → Live s → Over (close code reply s).1
