-- ===== src/Manager/Opening.antt =====
-- gateway/manager.go, Open and GatewayScale: the way from the gateway's answer to running groups.
use sandwich_producer.Base.{
  ℕ, ℤ, pos, ◌+◌, ◌/◌, ◌*◌, ◌^◌, ◌≡◌, ◌<◌, ◌≤◌, refl, List, Option, none, some, GoError, Returns,
  Returns->>=, ret, arith, ◌>>=◌,
}
use mathlib.Core.Path.{ap₂, ◌∙◌}
use sandwich_producer.Events.Packets.{GatewayBot}
use sandwich_producer.Sharding.{choose_shard_count, round_shards, create_shard_ids}
use sandwich_producer.Sharding.Rounding.{round_shards_lem}
use sandwich_producer.Sharding.Clusters.{create_shard_ids_lem, shards_from}
use sandwich_producer.ShardGroup.{Clocks}
use sandwich_producer.ShardGroup.Rotation.{Holds}
use sandwich_producer.ShardGroup.Succession.{Scaled, scale-Scaled}
use sandwich_producer.Manager.{Manager, scale_manager, scale_to, open_manager, gateway_scale}

-- What a scale to `count` shards leaves of a manager on which `k` groups have been started: the group
-- has the ids that CreateShardIDs gives, and the answer `g` is stored.
pub record IsScaled (replies : ℤ → Option GoError) (k latest : ℕ) (m : Manager) (count : ℤ)
    (g : GatewayBot) (x : Option GoError × Manager) : Type 0 where
  pub ids : List ℤ
  pub chosen :
      create_shard_ids m.configuration.cluster_count m.configuration.cluster_id count ≡ ret ids
  pub scaled : Scaled m.token ids count replies k latest m.registry (x.0, x.1.registry)
  pub stored : x.1.gateway ≡ some g

module _ (clocks : Clocks) (replies : ℤ → Option GoError) (latest k : ℕ) (small : k + 1 < 2 ^ 63)
    (m : Manager) (c id : ℕ) (few : c < 2 ^ 63) (valid : id < c) (h : Holds k latest m.registry)
    (clusters : m.configuration.cluster_count ≡ pos c)
    (cluster : m.configuration.cluster_id ≡ pos id) where
  created :
      (n : ℕ)
      → n < 2 ^ 63
      → create_shard_ids m.configuration.cluster_count m.configuration.cluster_id (pos n)
        ≡ ret (shards_from (n / c * id) (n / c))
  created n fits =
      ap₂ (λ a b. create_shard_ids a b (pos n)) clusters cluster
      ∙ create_shard_ids_lem n c id fits few valid

  scale_to-IsScaled :
      (g : GatewayBot) (n : ℕ)
      → n < 2 ^ 63
      → Returns
          (IsScaled replies k latest m (pos n) g)
          (scale_to clocks replies (pos n) (record m { gateway = some g }))
  unfolding scale_to scale_manager
  scale_to-IsScaled g n fits =
      rw (created n fits, ◌>>=◌)
        (Returns->>=
          (Scaled m.token (shards_from (n / c * id) (n / c)) (pos n) replies k latest m.registry)
          (IsScaled replies k latest m (pos n) g) _ _
          (scale-Scaled m.token clocks replies (shards_from (n / c * id) (n / c)) (pos n) latest k
            m.registry small h)
          (λ x s. record {
            ids = shards_from (n / c * id) (n / c);
            chosen = created n fits;
            scaled = s;
            stored = refl;
          }))

  -- Open returns without an error once the gateway has answered, on a valid cluster and for up to
  -- 2 ^ 53 shards: the answer is stored, and the new group is the latest one, with the rounded number
  -- of shards and the ids that CreateShardIDs gives for it. The group that was the latest before is
  -- stopped only if an odd number of groups had been started.
  pub open_manager-IsScaled :
      (g : GatewayBot) (n : ℕ)
      → n ≤ 2 ^ 53
      → choose_shard_count m.configuration.auto_sharded m.configuration.shard_count g.shards ≡ pos n
      → Returns
          (IsScaled replies k latest m (round_shards (pos n)) g)
          (open_manager clocks replies (some g, none) m)
  unfolding open_manager
  open_manager-IsScaled g n fits chosen =
      let (up, rounded, _, above, _, _) = round_shards_lem n fits in
      rw (chosen, rounded) (scale_to-IsScaled g up (omega arith))

  -- GatewayScale returns without an error once the gateway has answered, on a valid cluster and for a
  -- recommendation of up to 2 ^ 53 shards: the answer is stored with that number rounded, and the new
  -- group is the latest one, with that number of shards and the ids that CreateShardIDs gives for it.
  -- The group that was the latest before is stopped only if an odd number of groups had been started.
  gateway_scale-IsScaled :
      (g : GatewayBot) (n : ℕ)
      → n ≤ 2 ^ 53
      → g.shards ≡ pos n
      → Returns
          (IsScaled replies k latest m
            (round_shards (pos n))
            (record g { shards = round_shards (pos n) }))
          (gateway_scale clocks replies (some g, none) m)
  unfolding gateway_scale
  gateway_scale-IsScaled g n fits recommended =
      let (up, rounded, _, above, _, _) = round_shards_lem n fits in
      rw (recommended, rounded) (scale_to-IsScaled (record g { shards = pos up }) up (omega arith))
