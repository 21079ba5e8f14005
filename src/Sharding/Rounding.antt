-- ===== src/Sharding/Rounding.antt =====
-- gateway/manager.go: the number of shards after rounding.
use sandwich_producer.Base.{
  ℕ, zero, suc, pos, ◌+◌, ◌*◌, ◌/◌, ◌%◌, ◌^◌, ◌≤◌, ◌<◌, ◌≡◌, arith, wrap64-*ℤ, ltb, le→leb,
  if◌then◌else◌,
}
use sandwich_producer.Sharding.{round_to, float64, round_up, round_shards}

round_to-one : (n : ℕ) → round_to 1 n ≡ n
unfolding round_to
round_to-one n = ground arith

float64_exact : (binades n : ℕ) → n ≤ 2 ^ 53 → float64 binades 1 n ≡ n
unfolding float64
float64_exact zero n h = round_to-one n
float64_exact (suc binades) n h = rw (le→leb n (2 ^ 53) h) (round_to-one n)

round_up_lem : (n : ℕ) → n ≤ 2 ^ 53 → round_up n ≡ pos ((n + 15) / 16 * 16)
unfolding round_up
round_up_lem n h = rw (float64_exact 10 n h, wrap64-*ℤ ((n + 15) / 16) 16 (omega arith))

-- Up to 63 shards are kept as they are. From 64 up to 2 ^ 53 the number is the least multiple of 16
-- that is not smaller: no shard is lost, and fewer than 16 are added.
pub round_shards_lem :
    (n : ℕ)
    → n ≤ 2 ^ 53
    → (m : ℕ) × (round_shards (pos n) ≡ pos m)
      × (n ≤ m)
      × (m < n + 16)
      × (n ≤ 63 → m ≡ n)
      × (63 < n → m % 16 ≡ 0)
unfolding round_shards
round_shards_lem n h = (
  if ltb 63 n then (n + 15) / 16 * 16 else n,
  ground (arith, round_up_lem n h),
  ground arith,
  ground arith,
  λ k. ground arith,
  λ k. ground arith,
)
