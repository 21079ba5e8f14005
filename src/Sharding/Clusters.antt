-- ===== src/Sharding/Clusters.antt =====
-- gateway/manager.go, CreateShardIDs: the shards of one cluster, and of all of them together.
use sandwich_producer.Base.{
  ℕ, zero, suc, ℤ, pos, ◌+◌, ◌*◌, ◌/◌, ◌%◌, ◌-◌, ◌^◌, ◌≤◌, ◌<◌, ◌≡◌, ◌↔◌, refl, ap, sym, ◌∙◌, arith,
  wrap64-*ℤ, wrap64-+ℤ, wrap64-pos, pos-+ℤ, pos-quot_ℤ, ◌+ℤ◌, ◌-ℤ◌, pos_part, List, [], ◌∷◌, ◌++◌,
  Outcome, ret, ◌>>=◌,
}
use Prim.Native.Nat.add
use native.Mathlib.Nat.{add-zero}
use sandwich_producer.Sharding.{shard_loop, create_shard_ids, go_quot, cluster_shards}

-- `count` shards from `first` on.
abbrev pub shards_from : ℕ → ℕ → List ℤ
shards_from first zero = []
shards_from first (suc count) = pos first ∷ shards_from (suc first) count

pos-+ℤ-one : (i : ℕ) → pos i +ℤ pos 1 ≡ pos (suc i)
pos-+ℤ-one i = pos-+ℤ i 1 ∙ ap pos (omega arith)

shard_loop_lem :
    (rounds first stop : ℕ)
    → stop ≡ first + rounds
    → shard_loop rounds (pos first) (pos stop) ≡ shards_from first rounds
unfolding shard_loop
shard_loop_lem zero first stop e = refl
shard_loop_lem (suc rounds) first stop e =
    rw (pos-+ℤ-one first, shard_loop_lem rounds (suc first) stop (omega arith)) (ground arith)

quotient_fits : (n c id : ℕ) → id < c → n / c * id + n / c ≤ n
quotient_fits n c id h = grind arith

suc-add : (a b : ℕ) → suc (a + b) ≡ suc a + b
suc-add a b = omega arith

quotient_small : (n c : ℕ) → n < 2 ^ 63 → n / c < 2 ^ 63
quotient_small n c h = grind arith

pos_part--ℤ : (a b : ℕ) → pos_part (pos a -ℤ pos b) ≡ a - b
unfolding ◌-ℤ◌
pos_part--ℤ a b = ground arith

go_quot_pos : (n c : ℕ) → n < 2 ^ 63 → 0 < c → go_quot (pos n) (pos c) ≡ ret (pos (n / c))
unfolding go_quot
go_quot_pos n c small h =
    rw (pos-quot_ℤ n c, wrap64-pos (n / c) (quotient_small n c small)) (ground arith)

cluster_shards_lem :
    (q id : ℕ)
    → q * id + q < 2 ^ 63
    → id + 1 < 2 ^ 63
    → cluster_shards (pos q) (pos id) ≡ shards_from (q * id) q
unfolding cluster_shards
cluster_shards_lem q id small few =
    rw
      (
        wrap64-*ℤ q id (omega arith),
        wrap64-+ℤ id 1 few,
        wrap64-*ℤ q (id + 1) (omega arith),
        pos_part--ℤ (q * (id + 1)) (q * id),
        rounds,
      )
      (shard_loop_lem q (q * id) (q * (id + 1)) (omega arith))
  where
    rounds : q * (id + 1) - q * id ≡ q
    rounds = omega arith

-- With fewer than 2 ^ 63 shards and clusters, a cluster with a valid id runs `n / c` shards, the ones
-- from `n / c * id` on; the call does not panic.
pub create_shard_ids_lem :
    (n c id : ℕ)
    → n < 2 ^ 63
    → c < 2 ^ 63
    → id < c
    → create_shard_ids (pos c) (pos id) (pos n) ≡ ret (shards_from (n / c * id) (n / c))
unfolding create_shard_ids
create_shard_ids_lem n c id small few valid = rw (
  go_quot_pos n c small (omega arith),
  ◌>>=◌,
  cluster_shards_lem (n / c) id (omega (arith, quotient_fits n c id valid)) (omega arith),
)

-- The shards of the clusters 0 up to `k`, one list after the other.
pub all_clusters : (c n k : ℕ) → Outcome (List ℤ)
all_clusters c n zero = ret []
all_clusters c n (suc k) = all_clusters c n k >>= λ shards.
    create_shard_ids (pos c) (pos k) (pos n) >>= λ more. ret (shards ++ more)

shards_from-append :
    (count first next more : ℕ)
    → next ≡ first + count
    → shards_from first count ++ shards_from next more ≡ shards_from first (count + more)
shards_from-append zero first next more e =
    ap (λ (x : ℕ). shards_from x more) (e ∙ add-zero first)
    ∙ ap (shards_from first) (sym (add.zero more))
shards_from-append (suc count) first next more e =
    rw (shards_from-append count (suc first) next more (omega arith))
      (ap (shards_from first) (suc-add count more))

all_clusters_lem :
    (n c k : ℕ)
    → n < 2 ^ 63
    → c < 2 ^ 63
    → k ≤ c
    → all_clusters c n k ≡ ret (shards_from 0 (n / c * k))
unfolding all_clusters
all_clusters_lem n c zero small few h = rw nothing
  where
    nothing : n / c * 0 ≡ 0
    nothing = omega arith
all_clusters_lem n c (suc k) small few h =
    rw
      (
        all_clusters_lem n c k small few (omega arith),
        ◌>>=◌,
        create_shard_ids_lem n c k small few h,
      )
      (ap ret (joined ∙ ap (shards_from 0) regrouped))
  where
    joined :
        shards_from 0 (n / c * k) ++ shards_from (n / c * k) (n / c)
        ≡ shards_from 0 (n / c * k + n / c)
    joined = shards_from-append (n / c * k) 0 (n / c * k) (n / c) (omega arith)

    regrouped : n / c * k + n / c ≡ n / c * suc k
    regrouped = omega arith

-- The clusters of a configuration split the shards from 0 up to `n / c * c` between them, in order
-- and with none in two clusters. The `n % c` shards above those are run by no cluster, so that all
-- `n` are run exactly if the number of clusters divides the number of shards.
pub all_clusters_split :
    (n c : ℕ)
    → n < 2 ^ 63
    → c < 2 ^ 63
    → 0 < c
    → (all_clusters c n c ≡ ret (shards_from 0 (n / c * c)))
      × (n / c * c + n % c ≡ n)
      × ((n / c * c ≡ n) ↔ (n % c ≡ 0))
all_clusters_split n c small few h = (
  all_clusters_lem n c c small few (omega arith),
  parts,
  (λ e. omega (arith, parts), λ e. omega (arith, parts)),
)
  where
    parts : n / c * c + n % c ≡ n
    parts = grind arith
