-- ===== src/Shard/Protocol.antt =====
-- gateway/shard.go: the order in which a shard does things, as a state machine.
pub mod Connections
use sandwich_producer.Base.{
  ◌≡◌, ◌==◌, ◌||◌, if◌then◌else◌, Bool, true, false, List, [], ◌∷◌, Option, none, some,
}
use sandwich_producer.Events.Codes.{op_code, heartbeat, identify, resume}
use sandwich_producer.Events.Packets.{SentPayload}
use sandwich_producer.Shard.{
  State, Action, waits_identify, takes_ticket, frees_ticket, dials, sets_read_limit, writes, reads,
  closes,
}

-- How far a connection has come.
pub data Phase : Type 0 where
  unopened queued ticketed ready connected limited greeted live ended : Phase

-- A connection may be given up, and the next one begun, in these phases.
abbrev pub may_restart : Phase → Bool
may_restart unopened = true
may_restart queued = false
may_restart ticketed = false
may_restart ready = false
may_restart connected = false
may_restart limited = true
may_restart greeted = true
may_restart live = true
may_restart ended = true

abbrev pub is_opening : SentPayload → Bool
is_opening p = (p.op == op_code identify) || (p.op == op_code resume)

-- The phase after an action: wait to identify, take and free a ticket, dial, set the limit, read
-- one message, write an identify or a resume, then read and write heartbeats, and close with 4000 last.
abbrev pub advance : Phase → Action → Option Phase
advance p (waits_identify key) = if may_restart p then some queued else none
advance queued takes_ticket = some ticketed
advance ticketed frees_ticket = some ready
advance ready (dials url) = some connected
advance connected (sets_read_limit n) = some limited
advance limited reads = some greeted
advance greeted (writes p) = if is_opening p then some live else none
advance live reads = some live
advance live (writes p) = if p.op == op_code heartbeat then some live else none
advance live (closes code) = if code == 4000 then some ended else none
advance _ _ = none

-- The phase after a log, whose newest action comes first; `none` if an action was out of order.
unfoldable pub follow : List Action → Option Phase
follow [] = some unopened
follow (a ∷ log) = elim (follow log) [ none ↦ none | some p ↦ advance p a ]

abbrev pub At : Phase → State → Type 0
At p s = follow s.log ≡ some p

-- Every action was in order, and the connection may be given up.
abbrev pub Rests : State → Type 0
Rests s = (p : Phase) × At p s × (may_restart p ≡ true)
