-- ===== src/Startup/Progress.antt =====
-- gateway/shard.go and gateway/manager.go: when every shard gets to dial.
use sandwich_producer.Base.{
  All-zip, get, ret, ℕ, ℤ, pos, ◌^◌, ◌<◌, ◌≡◌, List, [], ◌∷◌, some, All, All-mono, Pairwise,
  Returns, Returns->>=, ◌+ℤ◌,
}
use sandwich_producer.Events.Packets.{GatewayBot}
use sandwich_producer.Limiter.Duration.{new_duration_limiter}
use sandwich_producer.Limiter.Concurrency.{new_concurrency_limiter, ConcurrencyLimiter}
use sandwich_producer.Startup.Limiters.{IsReading, Reaches}
use sandwich_producer.Startup.Calls.{new-IsReady, limiter_at, IsReady, Passes, pass_gates-Passes}
use sandwich_producer.Startup.{Gates, pass_all}
use sandwich_producer.Buckets.{new_bucket_store, Wait, passed}
use sandwich_producer.Buckets.Identity.{limiter_of}
use sandwich_producer.Identify.Ratelimit.{identify_duration}

-- Whatever reading of the first call is the one it passes at, the second has a reading five seconds later.
abbrev pub IsLater : ℕ × List ℤ → ℕ × List ℤ → Type 0
IsLater x y = All (λ t. Reaches (t +ℤ identify_duration) y.1) x.1

abbrev pub HasPassed : ℕ × Wait → Type 0
HasPassed x = (t : ℤ) × (x.1 ≡ passed t)

abbrev pub AllPassed : List (ℕ × Wait) × Gates → Type 0
AllPassed r = All HasPassed r.0

-- No limiter keeps a call for longer than its readings last.
abbrev IsFree : ℕ → Gates → ℕ × List ℤ → Type 0
IsFree c gates y = (j : ℕ) → Reaches (limiter_at c j gates.buckets).resets_at y.1

module _ (g : GatewayBot) (c : ℕ) (some_concurrency : 0 < c) (fits : c < 2 ^ 63)
    (concurrency : g.session_start_limit.max_concurrency ≡ pos c) where
  pass_all-HasPassed :
      (calls : List (ℕ × List ℤ)) (gates : Gates)
      → All (λ k. All IsReading k.1) calls
      → IsReady c gates
      → All (IsFree c gates) calls
      → Pairwise IsLater calls
      → Returns AllPassed (pass_all (some g) calls gates)
  unfolding pass_all
  pass_all-HasPassed [] gates readings ready free later = tt
  pass_all-HasPassed ((i, clock) ∷ calls) gates readings ready free later =
      Returns->>= (Passes c i clock gates) AllPassed _ _
        (pass_gates-Passes g c some_concurrency fits concurrency i clock gates readings.0 ready)
        (λ r p.
          Returns->>= AllPassed AllPassed _ _
            (pass_all-HasPassed calls r.1 readings.1 p.ready
              (All-zip (IsFree c gates) (IsLater (i, clock)) (IsFree c r.1) calls
                (λ y f l j. p.kept j y.1 (f j) l) free.1 later.0)
              later.1)
            (λ r' h. (p.prompt (free.0 i), h)))

  -- On a new manager whose gateway has a positive concurrency, calls of any shards, one after the other,
  -- all pass if each has a reading of the clock at or after 0 and, for every reading of an earlier call,
  -- one at least five seconds after it: neither limiter keeps a shard for ever.
  pub shards_pass :
      (n : ℕ) (limiter : ConcurrencyLimiter) (calls : List (ℕ × List ℤ))
      → 0 < n
      → new_concurrency_limiter (pos n) ≡ ret limiter
      → All (λ k. All IsReading k.1) calls
      → All (λ k. Reaches (pos 0) k.1) calls
      → Pairwise IsLater calls
      → Returns AllPassed
          (pass_all (some g) calls (record { buckets = new_bucket_store; ready_limiter = limiter }))
  unfolding new_bucket_store limiter_of new_duration_limiter get
  shards_pass n limiter calls positive made readings begun later =
      pass_all-HasPassed calls _ readings (new-IsReady c n limiter positive made)
        (All-mono (λ k. Reaches (pos 0) k.1) _ calls (λ y r j. r) begun) later
