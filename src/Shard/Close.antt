-- ===== src/Shard/Close.antt =====
-- gateway/shard.go: `Close`, a dial that fails, and the deadline for acknowledgements.
use sandwich_producer.Base.{
  ℕ, ℤ, pos, ◌*◌, ◌<◌, ◌^◌, ◌≡◌, ◌≢◌, Option, none, some, GoError, arith, panic, nil_dereference,
  wrap64-*ℤ, ap, eqb_ℤ_iff,
}
use sandwich_producer.Events.Packets.{GatewayBot}
use sandwich_producer.Identify.{identify_key}
use sandwich_producer.Shard.{Libraries, State, close}
use sandwich_producer.Shard.Connect.{
  Upstream, Attempt, connect, dialled, ticker_interval, heartbeat_failures,
}

-- Closing a shard whose last close succeeded does nothing more: no second close frame is sent, and
-- no error is reported, whatever status codes the two calls are given.
pub close-close :
    (code again : ℤ) (reply reply' : Option GoError) (s : State)
    → (close code reply s).0 ≡ none
    → close again reply' (close code reply s).1 ≡ (none, (close code reply s).1)
unfolding close
close-close code again reply reply' s h = ground arith

-- A dial that fails ends the process and not the call: on a manager that has fetched a gateway with
-- a positive or negative concurrency, `connect` panics on the nil connection, and the dial's error
-- is never returned.
pub connect-dial_failed :
    (lib : Libraries) (up : Upstream) (a : Attempt) (s : State) (g : GatewayBot)
    → up.gateway ≡ some g
    → g.session_start_limit.max_concurrency ≢ pos 0
    → a.dial.conn ≡ none
    → connect lib up a s ≡ panic nil_dereference
unfolding connect dialled identify_key
connect-dial_failed lib up a s g known nonzero failed =
    ground (arith, eqb_ℤ_iff g.session_start_limit.max_concurrency (pos 0))

-- The deadline is a million times as long as the given number of missed heartbeats takes, as long
-- as it fits 64 bits: both factors are nanosecond durations.
pub heartbeat_failures_scale :
    (h n : ℕ)
    → 0 < h
    → 0 < n
    → h * 1000000 * (n * 1000000) < 2 ^ 63
    → heartbeat_failures (ticker_interval (record { heartbeat_interval = pos h })) (pos n)
      ≡ pos (1000000 * (n * (h * 1000000)))
unfolding heartbeat_failures ticker_interval
heartbeat_failures_scale h n hp np fits =
    rw
      (
        wrap64-*ℤ h 1000000 (grind arith),
        wrap64-*ℤ n 1000000 (grind arith),
        wrap64-*ℤ (h * 1000000) (n * 1000000) fits,
      )
      (ap pos (omega arith))
