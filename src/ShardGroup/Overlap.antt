-- ===== src/ShardGroup/Overlap.antt =====
-- gateway/manager.go, Scale, and gateway/shard_group.go, Start: calls of Scale that overlap, while the
-- shards of the groups run. Nothing keeps a call from starting before another has ended; only the part of
-- Start that follows the spawning of the shards holds the manager's mutex.
pub mod Places
pub mod Turns
pub mod Calls
pub mod Steps
pub mod Order
use sandwich_producer.Base.{
  ℕ, ℤ, List, [], ◌∷◌, ◌++◌, map, set, Option, none, some, String, GoError, Panic, ret, panic, ◌≡◌,
  length, get_elem?,
}
use sandwich_producer.Shard.{Shard}
use sandwich_producer.ShardGroup.{
  ShardGroup, Registry, Clocks, born, new_shard_group, spawn_all, stop, conclude,
}

-- What one call of Scale is given: the clock of its goroutines, the ids, and the number of
-- shards.
pub record Scaling : Type 0 where
  pub clocks : Clocks
  pub ids : List ℤ
  pub count : ℤ

-- The group of a call, once its shards have been spawned. Only the call knows it until it is registered.
unfoldable pub spawned_group : String → Scaling → ShardGroup
spawned_group token q =
    spawn_all token (born q.clocks q.ids) (record (new_shard_group q.ids q.count) { err = none })

-- What the goroutines of the shards can do to a shard, given its id.
abbrev pub Runs : Type 0
Runs = ℕ → ℤ → Shard → Shard

-- The goroutines of a group's shards run.
unfoldable pub lived : Runs → ℕ → ShardGroup → ShardGroup
lived runs i g = record g { shards = map (λ (id, sh). (id, runs i id sh)) g.shards }

-- What has been done to a group: its shards have run, or it has been stopped.
pub data Deed : Type 0 where
  ran : ℕ → Deed
  was_stopped : Deed

-- A group after what has been done to it, the latest first.
unfoldable pub replay : Runs → (ℤ → Option GoError) → List Deed → ShardGroup → ShardGroup
replay runs replies [] g = g
replay runs replies (ran i ∷ deeds) g = lived runs i (replay runs replies deeds g)
replay runs replies (was_stopped ∷ deeds) g = stop replies (replay runs replies deeds g)

-- Where a goroutine is. A call is before its group, has its group at an address, or is at its end;
-- `living` stands for the goroutines of all shards.
pub data ScalePc : Type 0 where
  living : ScalePc
  called : Scaling → ScalePc
  spawned : ℕ → Scaling → ScalePc
  returned : ℕ → Scaling → Option GoError → ScalePc
  panicked : Panic → ScalePc

-- A call makes its group, and then takes its turn at the mutex, which it does not give back if it
-- panics. The shards of any group can run at any time.
pub data ScaleMove (token : String) (runs : Runs) (replies : ℤ → Option GoError) (r : Registry)
    : ScalePc → Registry → ScalePc → Type 0 where
  lives :
      (i a : ℕ) {g : ShardGroup}
      → get_elem? r.groups a ≡ some g
      → ScaleMove token runs replies r living
          (record r { groups = set r.groups a (lived runs i g) })
          living
  makes :
      {q : Scaling}
      → ScaleMove token runs replies r
          (called q)
          (record r { groups = r.groups ++ spawned_group token q ∷ [] })
          (spawned (length r.groups) q)
  turns :
      {a : ℕ} {q : Scaling} {g : ShardGroup} {r' : Registry} {err : Option GoError}
      → get_elem? r.groups a ≡ some g
      → conclude replies a g r g.err ≡ ret (err, r')
      → ScaleMove token runs replies r (spawned a q) r' (returned a q err)
  panics :
      {a : ℕ} {q : Scaling} {g : ShardGroup} {p : Panic}
      → get_elem? r.groups a ≡ some g
      → conclude replies a g r g.err ≡ panic p
      → ScaleMove token runs replies r (spawned a q) r (panicked p)
