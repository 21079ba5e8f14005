-- ===== src/Shard/Session.antt =====
-- gateway/shard.go: the session that a shard keeps. Nothing stores a sequence number or a session
-- id, so every connection of a new shard identifies anew.
use sandwich_producer.Base.{
  Ensures-Checks, Checks-Ensures, All-trivial, ℤ, pos, ◌≡◌, refl, ap, ◌⊎◌, inl, inr, List, [],
  Option, none, GoError, arith, All, Ensures, Ensures-trivial, Ensures-mono, false, eq_iff,
  eqb_ℤ_iff,
}
use sandwich_producer.Events.Codes.{op_code, heartbeat, identify}
use sandwich_producer.Events.Packets.{SentPayload, identifies, beats}
use sandwich_producer.Identify.{identify_key}
use sandwich_producer.Shard.{
  Libraries, Shard, State, Action, writes, ReadReply, ws_write_json, read_message, close,
  can_resume, identify_packet,
}
use sandwich_producer.Shard.Walk.{Stages}
use sandwich_producer.Shard.Walk.Connections.{open_shard-Ended}
use sandwich_producer.Shard.Connect.{Upstream, Attempt, opening, open_shard}

-- The shard has no session to resume.
abbrev pub HasNoSession : Shard → Type 0
HasNoSession sh = (sh.seq ≡ pos 0) × (sh.session_id ≡ "")

-- The packets of a shard with no session: identify, and heartbeats with the sequence number 0.
abbrev pub IsFirstPacket : SentPayload → Type 0
IsFirstPacket p =
    ((p.op ≡ op_code identify)
      × ((i : sandwich_producer.Events.Packets.Identify) × (p.content ≡ identifies i)))
    ⊎ ((p.op ≡ op_code heartbeat) × (p.content ≡ beats (pos 0)))

abbrev pub IsFirstAction : Action → Type 0
IsFirstAction (writes p) = IsFirstPacket p
IsFirstAction _ = Unit

pub record IsFresh (s : State) : Type 0 where
  pub sessionless : HasNoSession s.shard
  pub packets : All IsFirstAction s.log

module _ (lib : Libraries) where
  ws_write_json-IsFresh :
      (p : SentPayload) (reply : Option GoError) (s : State)
      → IsFirstPacket p
      → IsFresh s
      → Ensures (λ r. IsFresh r.1) (ws_write_json lib p reply s)
  unfolding ws_write_json
  ws_write_json-IsFresh p reply s first f = ground arith

  read_message-IsFresh :
      (r : ReadReply) (s : State) → IsFresh s → Ensures (λ x. IsFresh x.1) (read_message lib r s)
  unfolding read_message
  read_message-IsFresh r s f = ground arith

  close-IsFresh :
      (code : ℤ) (reply : Option GoError) (s : State) → IsFresh s → IsFresh (close code reply s).1
  unfolding close
  close-IsFresh code reply s f = ground arith

  module _ (up : Upstream) where
    opening-HasNoSession :
        (sh : Shard)
        → HasNoSession sh
        → opening lib up sh
          ≡ record { op = op_code identify; content = identifies (identify_packet lib up.token sh) }
    unfolding opening
    opening-HasNoSession sh none_yet =
        rw ((eq_iff sh.session_id "").1 none_yet.1, (eqb_ℤ_iff sh.seq (pos 0)).1 none_yet.0)

    opening-IsFirstPacket : (sh : Shard) → HasNoSession sh → IsFirstPacket (opening lib up sh)
    opening-IsFirstPacket sh none_yet =
        rw (opening-HasNoSession sh none_yet) (inl (refl, (identify_packet lib up.token sh, refl)))

    stages : Stages lib up (λ _. Unit {0}) (λ _. Unit {0})
    stages = record {
      Dialled = IsFresh;
      Greeted = IsFresh;
      Live = IsFresh;
      Over = IsFresh;
      dialled_over = λ s f. f;
      greeted_over = λ s f. f;
      live_over = λ s f. f;
      keyed = λ id. Ensures-Checks (λ _. Unit {0}) _ (Ensures-trivial (identify_key up.gateway id));
      refused = λ a d e. tt;
      begins = λ a key c s e f. record {
        sessionless = f.sessionless;
        packets = (tt, (tt, (tt, (tt, (tt, f.packets)))));
      };
      greets = λ r s f. Ensures-Checks (λ x. IsFresh x.1) _ (read_message-IsFresh r s f);
      ticks = λ a s s' d r e bad. tt;
      opens = λ reply s f.
          Ensures-Checks (λ r. IsFresh r.1 × (r.0 ≡ none → IsFresh r.1)) _
            (Ensures-mono (λ r. IsFresh r.1) (λ r. IsFresh r.1 × (r.0 ≡ none → IsFresh r.1)) _
              (λ r g. (g, λ _. g))
              (ws_write_json-IsFresh _ reply s (opening-IsFirstPacket s.shard f.sessionless) f));
      beats = λ reply s f.
          Ensures-Checks (λ r. IsFresh r.1) _
            (ws_write_json-IsFresh _ reply s (inr (refl, ap beats f.sessionless.0)) f);
      reads = λ r s f. Ensures-Checks (λ x. IsFresh x.1) _ (read_message-IsFresh r s f);
      closes = close-IsFresh;
    }

    open_shard-IsFresh :
        (attempts : List Attempt) (s : State)
        → IsFresh s
        → Ensures (λ x. IsFresh x.1) (open_shard lib up attempts s)
    unfolding stages
    open_shard-IsFresh attempts s f =
        Checks-Ensures (λ x. IsFresh x.1) _
          (open_shard-Ended stages attempts s (All-trivial attempts) f)

    can_resume-HasNoSession : (sh : Shard) → HasNoSession sh → can_resume sh ≡ false
    unfolding can_resume
    can_resume-HasNoSession sh h = rw ((eqb_ℤ_iff sh.seq (pos 0)).1 h.0)

    -- A shard that starts with sequence 0 and no session id never sends a resume packet: over all
    -- its connections, as long as no call panics, every packet it writes is an identify or a
    -- heartbeat with the sequence number 0, each with its operation code, and canResume stays false.
    pub open_shard_never_resumes :
        (attempts : List Attempt) (s : State)
        → HasNoSession s.shard
        → s.log ≡ []
        → Ensures
            (λ x. (can_resume x.1.shard ≡ false) × All IsFirstAction x.1.log)
            (open_shard lib up attempts s)
    open_shard_never_resumes attempts s h e =
        Ensures-mono (λ x. IsFresh x.1) _ (open_shard lib up attempts s)
          (λ x g. (can_resume-HasNoSession x.1.shard g.sessionless, g.packets))
          (open_shard-IsFresh attempts s (record { sessionless = h; packets = rw e tt }))
