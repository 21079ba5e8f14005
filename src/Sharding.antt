-- ===== src/Sharding.antt =====
-- gateway/manager.go: how many shards there are, and which of them a cluster runs (parts of `Open`
-- and `GatewayScale`, and CreateShardIDs).
pub mod Rounding
pub mod Clusters
use sandwich_producer.Base.{
  ℕ, zero, suc, ℤ, pos, ◌+◌, ◌*◌, ◌/◌, ◌%◌, ◌^◌, ◌+ℤ◌, ◌-ℤ◌, ◌*ℤ◌, quot_ℤ, wrap64, pos_part, ltb_ℤ,
  eqb_ℤ, leb, ltb, ◌==◌, Bool, ◌||◌, if◌then◌else◌, List, [], ◌∷◌, Outcome, ret, panic,
  divide_by_zero, ◌>>=◌,
}

-- The multiple of `ulp` nearest to `n`, the even multiple if two are as near.
unfoldable pub round_to : ℕ → ℕ → ℕ
round_to ulp n =
    let low = n / ulp in
    if ltb (2 * (n % ulp)) ulp
    then low * ulp
    else if ltb ulp (2 * (n % ulp))
    then (low + 1) * ulp
    else if low % 2 == 0
    then low * ulp
    else (low + 1) * ulp

-- The float64 of a non-negative int: exact up to 2 ^ 53, and from there on rounded to 53 bits. The
-- first argument is the number of binades above 2 ^ 53 that are looked at: an int has ten.
unfoldable pub float64 : ℕ → ℕ → ℕ → ℕ
float64 zero ulp n = round_to ulp n
float64 (suc binades) ulp n =
    let wider = float64 binades (2 * ulp) n in
    if leb n (2 ^ 53 * ulp) then round_to ulp n else wider

-- `int(math.Ceil(float64(n)/16)) * 16`. Division by 16 is exact on a float64.
unfoldable pub round_up : ℕ → ℤ
round_up n = wrap64 (pos ((float64 10 1 n + 15) / 16) *ℤ pos 16)

-- `if shardCount > 63 { … }`
unfoldable pub round_shards : ℤ → ℤ
round_shards n = if ltb_ℤ (pos 63) n then round_up (pos_part n) else n

-- `if m.Configuration.AutoSharded || m.Configuration.ShardCount < int(res.Shards)/2`
unfoldable pub choose_shard_count : Bool → ℤ → ℤ → ℤ
choose_shard_count auto_sharded configured recommended =
    if auto_sharded || ltb_ℤ configured (quot_ℤ recommended (pos 2))
    then recommended
    else configured

-- The loop of CreateShardIDs, `i` up to `stop`. The rounds are as many as lie between the two.
unfoldable pub shard_loop : ℕ → ℤ → ℤ → List ℤ
shard_loop zero i stop = []
shard_loop (suc rounds) i stop =
    let rest = shard_loop rounds (i +ℤ pos 1) stop in if ltb_ℤ i stop then i ∷ rest else []

-- Go's `/` on ints.
unfoldable pub go_quot : ℤ → ℤ → Outcome ℤ
go_quot a b = if eqb_ℤ b (pos 0) then panic divide_by_zero else ret (wrap64 (quot_ℤ a b))

-- The loop's bounds, from the number of shards of a cluster and the cluster's id.
unfoldable pub cluster_shards : ℤ → ℤ → List ℤ
cluster_shards deployed cluster_id =
    let first = wrap64 (deployed *ℤ cluster_id) in
    let stop = wrap64 (deployed *ℤ wrap64 (cluster_id +ℤ pos 1)) in
    shard_loop (pos_part (stop -ℤ first)) first stop

unfoldable pub create_shard_ids : (cluster_count cluster_id shard_count : ℤ) → Outcome (List ℤ)
create_shard_ids cluster_count cluster_id shard_count =
    go_quot shard_count cluster_count >>= λ deployed. ret (cluster_shards deployed cluster_id)
