-- ===== src/ShardGroup/Steps.antt =====
-- gateway/shard_group.go, Spawn: the goroutines of one `Start`, interleaved at the mutex of the group and
-- at the uses of its map.
use sandwich_producer.Base.{
  ℕ, ◌≡◌, List, Option, none, some, String, System, Steps, GoError, get, put, int_key, map,
}
use sandwich_producer.Shard.{Shard, wait_for_ready}
use sandwich_producer.ShardGroup.{ShardGroup, Birth, new_shard}

-- `sg.ShardsMu`, 1 if it is locked, and the group.
pub record Room : Type 0 where
  pub shards_mu : ℕ
  pub group : ShardGroup

-- Where a goroutine stands: before the lock, before and after the write to the map, after the unlock, and
-- with the shard that Spawn has returned.
pub data SpawnPc : Type 0 where
  starting : Birth → SpawnPc
  storing : Birth → SpawnPc
  stored : Birth → SpawnPc
  looking : Birth → SpawnPc
  finished : Option Shard → SpawnPc

-- `sg.Shards[shardID] = s`
unfoldable pub store_shard : String → Birth → ShardGroup → ShardGroup
store_shard token b g = record g { shards = put b.shard_id (new_shard token g b) g.shards }

-- `if _, err := …; err != nil { sg.err = err }`
unfoldable pub note_error : Option GoError → ShardGroup → ShardGroup
note_error none g = g
note_error (some e) g = record g { err = some e }

-- The last move is the read `sg.Shards[shardID]`, which takes no mutex.
pub data SpawnMove (token : String) (r : Room) : SpawnPc → Room → SpawnPc → Type 0 where
  locks :
      {b : Birth}
      → r.shards_mu ≡ 0
      → SpawnMove token r (starting b) (record r { shards_mu = 1 }) (storing b)
  stores :
      {b : Birth}
      → SpawnMove token r (storing b) (record r { group = store_shard token b r.group }) (stored b)
  unlocks : {b : Birth} → SpawnMove token r (stored b) (record r { shards_mu = 0 }) (looking b)
  looks :
      {b : Birth}
      → SpawnMove token r
          (looking b)
          (record r { group = note_error (wait_for_ready (new_shard token r.group b)) r.group })
          (finished (get b.shard_id r.group.shards))

-- What the goroutines of a `Start` can reach: one for each id, on an unlocked group.
pub data SpawnReach (token : String) (births : List Birth) (g : ShardGroup)
    (s : System Room SpawnPc) : Type 0 where
  runs :
      Steps
        (SpawnMove token)
        (record { shared = record { shards_mu = 0; group = g }; pcs = map starting births })
        s
      → SpawnReach token births g s
