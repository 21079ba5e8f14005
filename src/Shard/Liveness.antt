-- ===== src/Shard/Liveness.antt =====
-- gateway/shard.go: what ends the loop of `connect`, and what does not.
use sandwich_producer.Base.{
  ℕ, ℤ, pos, ◌≡◌, refl, List, [], ◌∷◌, Option, none, some, ret, GoError, arith, All, Returns,
  Returns->>=, true, false, if◌then◌else◌, ◌||◌,
}
use sandwich_producer.Events.Codes.{op_code, heartbeat}
use sandwich_producer.Events.Packets.{SentPayload, beats}
use sandwich_producer.Shard.{
  Libraries, State, ReadReply, read_message, close, writes, closes, record_action, ws_write_json,
}
use sandwich_producer.Shard.Connect.{
  Turn, Select, ctx_done, tick, default, returned, running, ack_is_late, is_error, beat,
  select_case, read_case, round, listen,
}
use sandwich_producer.Shard.Continue.{can_continue_always}

abbrev pub heartbeat_packet : ℤ → SentPayload
heartbeat_packet seq = record { op = op_code heartbeat; content = beats seq }

-- The context is not done, and a heartbeat that is due is sent, with the last acknowledgement
-- within the deadline.
abbrev pub IsQuiet : ℤ → ℤ → Select → Type 0
IsQuiet ack failures ctx_done = ⊥
IsQuiet ack failures (tick now written closed) =
    (written ≡ none) × (ack_is_late now ack failures ≡ false)
IsQuiet ack failures default = Unit

-- What the loop relies on: an open connection, and the time of the last acknowledgement.
pub record IsOpen (c : ℕ) (ack : ℤ) (s : State) : Type 0 where
  pub connected : s.shard.ws_conn ≡ some c
  pub acked : s.shard.last_heartbeat_ack ≡ ack

module _ (lib : Libraries) (c : ℕ) (ack failures : ℤ) where
  read_message-IsOpen :
      (r : ReadReply) (s : State)
      → IsOpen c ack s
      → Returns (λ x. IsOpen c ack x.1) (read_message lib r s)
  unfolding read_message
  read_message-IsOpen r s o = ground arith

  read_case-IsOpen :
      (r : ReadReply) (s : State)
      → IsOpen c ack s
      → Returns (λ x. (x.0 ≡ none) × IsOpen c ack x.2) (read_case lib r s)
  unfolding read_case
  read_case-IsOpen r s o =
      Returns->>= (λ x. IsOpen c ack x.1) (λ x. (x.0 ≡ none) × IsOpen c ack x.2) _ _
        (read_message-IsOpen r s o) (λ x g. ground (arith, can_continue_always lib x.0))

  module _ (marshals : (seq : ℤ) → (lib.marshal (heartbeat_packet seq)).1 ≡ none) where
    beat-IsOpen :
        (now : ℤ) (closed : Option GoError) (s : State)
        → ack_is_late now ack failures ≡ false
        → IsOpen c ack s
        → Returns (λ x. (x.0 ≡ none) × IsOpen c ack x.2) (beat lib failures now none closed s)
    unfolding beat ws_write_json
    beat-IsOpen now closed s timely o = ground (arith, marshals s.shard.seq)

    select_case-IsOpen :
        (sel : Select) (err : Option GoError) (s : State)
        → IsQuiet ack failures sel
        → IsOpen c ack s
        → Returns (λ x. (x.0 ≡ none) × IsOpen c ack x.2) (select_case lib failures sel err s)
    unfolding select_case
    select_case-IsOpen ctx_done err s q o = absurd q
    select_case-IsOpen (tick now written closed) err s q o = rw q.0 (beat-IsOpen now closed s q.1 o)
    select_case-IsOpen default err s q o = (refl, o)

    round-IsOpen :
        (t : Turn) (err : Option GoError) (s : State)
        → IsQuiet ack failures t.select
        → IsOpen c ack s
        → Returns (λ x. (x.0 ≡ none) × IsOpen c ack x.2) (round lib failures t err s)
    unfolding round
    round-IsOpen t err s q o =
        Returns->>= (λ x. (x.0 ≡ none) × IsOpen c ack x.2) (λ x. (x.0 ≡ none) × IsOpen c ack x.2) _
          _ (select_case-IsOpen t.select err s q o)
          (λ x g. rw g.0 (read_case-IsOpen t.read x.2 g.1))

    -- The loop runs on for as long as every turn is quiet, whatever its reads return: a failed read,
    -- a lost connection included, does not end it, and the connection it holds stays the same.
    pub listen_keeps_running :
        (turns : List Turn) (err : Option GoError) (s : State)
        → All (λ t. IsQuiet ack failures t.select) turns
        → IsOpen c ack s
        → Returns (λ x. (x.0 ≡ running) × IsOpen c ack x.1) (listen lib failures turns err s)
    unfolding listen
    listen_keeps_running [] err s q o = (refl, o)
    listen_keeps_running (t ∷ turns) err s q o =
        Returns->>= (λ x. (x.0 ≡ none) × IsOpen c ack x.2) (λ x. (x.0 ≡ running) × IsOpen c ack x.1)
          _ _ (round-IsOpen t err s q.0 o)
          (λ x g. rw g.0 (listen_keeps_running turns x.1 x.2 q.1 g.1))

    -- A heartbeat on an open connection that fails to be written, or that finds the last
    -- acknowledgement older than the deadline, ends the loop with the write's error: the connection
    -- is closed with the code 4000, and is given up if that succeeds.
    beat_closes :
        (now : ℤ) (written closed : Option GoError) (s : State)
        → IsOpen c ack s
        → (is_error written || ack_is_late now ack failures) ≡ true
        → (t : State) × (beat lib failures now written closed s
            ≡ ret (some (returned written), written, t))
          × (t.log ≡ closes 4000 ∷ writes (heartbeat_packet s.shard.seq) ∷ s.log)
          × (t.shard.ws_conn ≡ (if is_error closed then some c else none))
    unfolding beat ws_write_json close
    beat_closes now written closed s o h = (
      (close (pos 4000) closed (record_action (writes (heartbeat_packet s.shard.seq)) s)).1,
      ground (arith, marshals s.shard.seq),
      ground arith,
      ground arith,
    )
