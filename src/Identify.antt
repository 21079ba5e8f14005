-- ===== src/Identify.antt =====
-- gateway/manager.go, WaitForIdentifyRatelimit: the number in the name of the bucket that a shard
-- waits for, `shardID % MaxConcurrency`.
pub mod Decimal
pub mod Ratelimit
use sandwich_producer.Base.{
  ℤ, pos, rem_ℤ, eqb_ℤ, if◌then◌else◌, Option, none, some, Outcome, ret, panic, nil_dereference,
  divide_by_zero,
}
use sandwich_producer.Events.Packets.{GatewayBot}

-- Go's `%` on ints; the remainder fits whenever the operands do.
unfoldable pub go_rem : ℤ → ℤ → Outcome ℤ
go_rem a b = if eqb_ℤ b (pos 0) then panic divide_by_zero else ret (rem_ℤ a b)

-- `m.Gateway` is nil until `Open` or `GatewayScale` has fetched it.
unfoldable pub identify_key : Option GatewayBot → ℤ → Outcome ℤ
unfolding go_rem
identify_key none shard_id = panic nil_dereference
identify_key (some g) shard_id = go_rem shard_id g.session_start_limit.max_concurrency
