-- ===== src/Startup.antt =====
-- gateway/shard.go, the start of `connect`, on the state of the manager: what a shard waits for before it
-- dials. The log of Shard.Connect names these waits; here they are the calls themselves.
pub mod Limiters
pub mod Calls
pub mod Spacing
pub mod Progress
use sandwich_producer.Base.{ℕ, ℤ, pos, List, [], ◌∷◌, Option, none, some, Outcome, ret, ◌>>=◌}
use sandwich_producer.Events.Packets.{GatewayBot}
use sandwich_producer.Limiter.Concurrency.{ConcurrencyLimiter, wait, free_ticket}
use sandwich_producer.Buckets.{BucketStore, Wait, refused, passed, waiting, crashed}
use sandwich_producer.Identify.Ratelimit.{wait_for_identify_ratelimit}

-- What the shards of a manager share before they dial.
pub record Gates : Type 0 where
  pub buckets : BucketStore
  pub ready_limiter : ConcurrencyLimiter

-- `ticket := ReadyLimiter.Wait()` and `ReadyLimiter.FreeTicket(ticket)`: `none` if one of them blocks.
unfoldable pub take_and_free : ConcurrencyLimiter → Option ConcurrencyLimiter
take_and_free c = elim (wait c) [ none ↦ none | some (ticket, c') ↦ free_ticket ticket c' ]

-- What follows the wait for a position to identify.
unfoldable pub after_identify : Wait → Gates → Wait × Gates
after_identify (refused e) gates = (refused e, gates)
after_identify (passed t) gates = elim (take_and_free gates.ready_limiter) [
  | none ↦ (waiting, gates)
  | some c ↦ (passed t, record gates { ready_limiter = c })
]
after_identify waiting gates = (waiting, gates)
after_identify (crashed p) gates = (crashed p, gates)

-- `connect` up to its dial, with the readings of the clock that the wait to identify makes.
unfoldable pub pass_gates : Option GatewayBot → ℤ → List ℤ → Gates → Outcome (Wait × Gates)
pass_gates gateway shard_id clock gates =
    wait_for_identify_ratelimit gateway shard_id clock gates.buckets >>= λ (w, bs).
    ret (after_identify w (record gates { buckets = bs }))

-- Calls of several shards, each by its id and the readings that it makes, and what each comes to. A
-- goroutine that is still waiting has one entry for each of its turns.
unfoldable pub pass_all :
    Option GatewayBot → List (ℕ × List ℤ) → Gates → Outcome (List (ℕ × Wait) × Gates)
pass_all gateway [] gates = ret ([], gates)
pass_all gateway ((i, clock) ∷ calls) gates =
    pass_gates gateway (pos i) clock gates >>= λ (w, gates').
    pass_all gateway calls gates' >>= λ (ws, gates''). ret ((i, w) ∷ ws, gates'')
