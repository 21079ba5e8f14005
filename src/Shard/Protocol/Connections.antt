-- ===== src/Shard/Protocol/Connections.antt =====
-- gateway/shard.go, `connect` and Open: every connection does things in order.
use sandwich_producer.Base.{
  ℤ, ◌≡◌, refl, true, Option-cases, inl, inr, ◌⊎◌, List, [], Option, none, GoError, arith, Ensures,
  Ensures->>=, Ensures-trivial, Ensures-Checks, Checks-Ensures, All-trivial,
}
use sandwich_producer.Events.Codes.{op_code, heartbeat}
use sandwich_producer.Events.Packets.{SentPayload}
use sandwich_producer.Identify.{identify_key}
use sandwich_producer.Shard.{
  Libraries, Shard, State, writes, ReadReply, ws_write_json, read_message, close, record_action,
  conn_of,
}
use sandwich_producer.Shard.Connect.{Upstream, Attempt, opening, open_shard}
use sandwich_producer.Shard.Liveness.{heartbeat_packet}
use sandwich_producer.Shard.Walk.{Stages, after_dial}
use sandwich_producer.Shard.Walk.Connections.{open_shard-Ended}
use sandwich_producer.Shard.Protocol.{
  unopened, limited, greeted, live, ended, is_opening, follow, At, Rests,
}

module _ (lib : Libraries) where
  ws_write_json-live :
      (p : SentPayload) (reply : Option GoError) (s : State)
      → p.op ≡ op_code heartbeat
      → At live s
      → Ensures (λ r. At live r.1) (ws_write_json lib p reply s)
  unfolding ws_write_json follow op_code
  ws_write_json-live p reply s op h = ground arith

  read_message-live :
      (r : ReadReply) (s : State) → At live s → Ensures (λ x. At live x.1) (read_message lib r s)
  unfolding read_message follow
  read_message-live r s h = ground arith

  read_message-greeted :
      (r : ReadReply) (s : State)
      → At limited s
      → Ensures (λ x. At greeted x.1) (read_message lib r s)
  unfolding read_message follow
  read_message-greeted r s h = ground arith

  live-Rests : (s : State) → (At live s ⊎ At ended s) → Rests s
  live-Rests s (inl h) = (live, h, refl)
  live-Rests s (inr h) = (ended, h, refl)

  close-Rests :
      (code : ℤ) (reply : Option GoError) (s : State) → At live s → Rests (close code reply s).1
  unfolding close follow
  close-Rests code reply s h = live-Rests (close code reply s).1 (ground arith)

  module _ (up : Upstream) where
    opening-IsOpening : (sh : Shard) → is_opening (opening lib up sh) ≡ true
    unfolding opening op_code
    opening-IsOpening sh = ground arith

    writes_opening :
        (s : State) → At greeted s → At live (record_action (writes (opening lib up s.shard)) s)
    unfolding follow
    writes_opening s h = ground (arith, opening-IsOpening s.shard)

    -- The first packet is written, or the call returns an error.
    abbrev Opened : Option GoError × State → Type 0
    Opened r = Rests r.1 × (r.0 ≡ none → At live r.1)

    write_opening :
        (reply : Option GoError) (s : State)
        → At greeted s
        → Ensures Opened (ws_write_json lib (opening lib up s.shard) reply s)
    unfolding ws_write_json
    write_opening reply s h = elim (Option-cases (lib.marshal (opening lib up s.shard)).1) [
      | inl e ↦
          rw (ws_write_json, e)
            (Ensures->>= (λ _. Unit {0}) Opened _ _ (Ensures-trivial (conn_of s.shard))
              (λ c _. ((live, writes_opening s h, refl), λ e'. writes_opening s h)))
      | inr (err, e) ↦ rw (ws_write_json, e) ((greeted, h, refl), λ e'. ground (arith, e'))
    ]

    after_dial-limited :
        (a : Attempt) (key : ℤ) (s : State) → Rests s → At limited (after_dial up a key s)
    unfolding follow
    after_dial-limited a key s (p, at, rests) = ground (arith, at, rests)

    stages : Stages lib up (λ _. Unit {0}) (λ _. Unit {0})
    stages = record {
      Dialled = At limited;
      Greeted = At greeted;
      Live = At live;
      Over = Rests;
      dialled_over = λ s h. (limited, h, refl);
      greeted_over = λ s h. (greeted, h, refl);
      live_over = λ s h. (live, h, refl);
      keyed = λ id. Ensures-Checks (λ _. Unit {0}) _ (Ensures-trivial (identify_key up.gateway id));
      refused = λ a d e. tt;
      begins = λ a key c s e h. after_dial-limited a key s h;
      greets = λ r s h. Ensures-Checks (λ x. At greeted x.1) _ (read_message-greeted r s h);
      ticks = λ a s s' d r e bad. tt;
      opens = λ reply s h. Ensures-Checks Opened _ (write_opening reply s h);
      beats = λ reply s h.
          Ensures-Checks (λ x. At live x.1) _
            (ws_write_json-live (heartbeat_packet s.shard.seq) reply s refl h);
      reads = λ r s h. Ensures-Checks (λ x. At live x.1) _ (read_message-live r s h);
      closes = close-Rests;
    }

    -- As long as no call panics, a new shard does everything in order over all its connections: it waits
    -- for its position to identify, takes a ticket and frees it, dials, sets the read limit, reads
    -- one message, writes an identify or a resume, and from then on reads and writes heartbeats until
    -- it closes with the code 4000; it gives a connection up only after the read limit is set.
    pub open_shard-Rests :
        (attempts : List Attempt) (s : State)
        → s.log ≡ []
        → Ensures (λ x. Rests x.1) (open_shard lib up attempts s)
    unfolding follow stages
    open_shard-Rests attempts s e =
        Checks-Ensures (λ x. Rests x.1) _
          (open_shard-Ended stages attempts s (All-trivial attempts) (unopened, rw e refl, refl))
