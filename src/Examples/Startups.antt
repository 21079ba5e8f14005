-- ===== src/Examples/Startups.antt =====
-- gateway/shard.go, the start of `connect`, for two shards that share a bucket.
use sandwich_producer.Base.{
  ℕ, ℤ, pos, ◌≡◌, ◌+ℤ◌, refl, List, [], ◌∷◌, some, arith, Returns, ret, All, Pairwise, map,
}
use sandwich_producer.Limiter.Concurrency.{ConcurrencyLimiter, new_concurrency_limiter, fill}
use sandwich_producer.Buckets.{new_bucket_store}
use sandwich_producer.Startup.{pass_all}
use sandwich_producer.Startup.Limiters.{IsReading, Reaches}
use sandwich_producer.Startup.Spacing.{IsApart, shards-IsApart}
use sandwich_producer.Startup.Progress.{AllPassed, IsLater, shards_pass}
use sandwich_producer.Examples.Identifies.{gateway}

abbrev limiter : ConcurrencyLimiter
limiter = record { limit = pos 1; tickets = pos 0 ∷ []; in_progress = pos 0 }

made : new_concurrency_limiter (pos 1) ≡ ret limiter
unfolding new_concurrency_limiter fill
made = refl

-- Shard 28 passes at once, shard 12 sleeps once, and shard 5 has a bucket of its own.
abbrev calls : List (ℕ × List ℤ)
calls =
    (28, pos 9 ∷ [])
    ∷ (12, pos 10 ∷ pos 5000000009 ∷ [])
    ∷ (5, pos 5000000011 ∷ pos 10000000009 ∷ [])
    ∷ []

calls-IsReading : All (λ k. All IsReading k.1) calls
unfolding ◌+ℤ◌
calls-IsReading = ground arith

calls-Reaches : All (λ k. Reaches (pos 0) k.1) calls
calls-Reaches = ground arith

calls-IsLater : Pairwise IsLater calls
unfolding ◌+ℤ◌
calls-IsLater = ground arith

shards-IsApart_example :
    Returns
      (λ r. (map (λ x. x.0) r.0 ≡ 28 ∷ 12 ∷ 5 ∷ []) × Pairwise (IsApart 16) r.0)
      (pass_all
        (some gateway)
        calls
        (record { buckets = new_bucket_store; ready_limiter = limiter }))
shards-IsApart_example =
    shards-IsApart gateway 16 (omega arith) (omega arith) refl 1 limiter calls (omega arith) made
      calls-IsReading

shards_pass_example :
    Returns AllPassed (
      pass_all
        (some gateway)
        calls
        (record { buckets = new_bucket_store; ready_limiter = limiter }))
shards_pass_example =
    shards_pass gateway 16 (omega arith) (omega arith) refl 1 limiter calls (omega arith) made
      calls-IsReading calls-Reaches calls-IsLater
