-- ===== src/ShardGroup/Stopping.antt =====
-- gateway/shard_group.go, Stop, on a shard whose connection is being listened to. `Shard.Close` takes
-- the connection away, and does not cancel the context that `connect` waits on.
use sandwich_producer.Base.{ℤ, ◌≡◌, List, Option, none, GoError, arith, panic, nil_dereference}
use sandwich_producer.Shard.{Libraries, Shard, Action, read_message, ws_write_json, close}
use sandwich_producer.Shard.Connect.{
  Turn, Select, ctx_done, tick, default, select_case, beat, read_case, round,
}
use sandwich_producer.Shard.Liveness.{heartbeat_packet}
use sandwich_producer.ShardGroup.{close_shard}

-- The `select` goes on: the context is cancelled only when `connect` returns.
abbrev pub IsUndone : Select → Type 0
IsUndone ctx_done = ⊥
IsUndone (tick now written closed) = Unit
IsUndone default = Unit

module _ (lib : Libraries) (marshals : (seq : ℤ) → (lib.marshal (heartbeat_packet seq)).1 ≡ none)
    (replies : ℤ → Option GoError) where
  -- A group that is stopped while its shards are connected ends the process: when a shard's
  -- connection has been closed, the next round of its loop panics, whether it sends a heartbeat or
  -- reads.
  close_shard-round :
      (id failures : ℤ) (sh : Shard) (log : List Action) (t : Turn) (err : Option GoError)
      → replies id ≡ none
      → IsUndone t.select
      → round lib failures t err (record { shard = (close_shard replies (id, sh)).1; log = log })
        ≡ panic nil_dereference
  unfolding close_shard close round select_case beat ws_write_json read_case read_message
  close_shard-round id failures sh log t err closed undone = ground (arith, closed, marshals sh.seq)
