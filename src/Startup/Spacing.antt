-- ===== src/Startup/Spacing.antt =====
-- gateway/shard.go and gateway/manager.go: how far apart shards get to dial.
use sandwich_producer.Base.{
  ret, Returns-mono, ℕ, ℤ, pos, ◌%◌, ◌^◌, ◌<◌, ◌≡◌, refl, sym, ap, List, [], ◌∷◌, some, arith, All,
  All-mono, Pairwise, map, Returns, Returns->>=, ◌+ℤ◌, ◌≤ℤ◌,
}
use sandwich_producer.Events.Packets.{GatewayBot}
use sandwich_producer.Limiter.Concurrency.{new_concurrency_limiter, ConcurrencyLimiter}
use sandwich_producer.Startup.Limiters.{IsReading}
use sandwich_producer.Startup.Calls.{
  new-IsReady, limiter_at, IsReady, Passes, same_limiter, pass_gates-Passes,
}
use sandwich_producer.Startup.{Gates, pass_all}
use sandwich_producer.Buckets.{new_bucket_store, Wait, passed}
use sandwich_producer.Identify.Ratelimit.{identify_duration}

-- Of two calls that pass, the later one passes at least five seconds later, if their shards have the
-- same remainder by the concurrency `c`.
abbrev pub IsApart : ℕ → ℕ × Wait → ℕ × Wait → Type 0
IsApart c x y =
    (t u : ℤ) → x.1 ≡ passed t → y.1 ≡ passed u → x.0 % c ≡ y.0 % c → t +ℤ identify_duration ≤ℤ u

-- No call passes before the reset time that its limiter has now.
abbrev IsDue : ℕ → Gates → ℕ × Wait → Type 0
IsDue c gates x = (u : ℤ) → x.1 ≡ passed u → (limiter_at c x.0 gates.buckets).resets_at ≤ℤ u

module _ (g : GatewayBot) (c : ℕ) (some_concurrency : 0 < c) (fits : c < 2 ^ 63)
    (concurrency : g.session_start_limit.max_concurrency ≡ pos c) where
  -- The calls after one that passed at `t`.
  after-IsApart :
      (i : ℕ) (clock : List ℤ) (gates : Gates) (r : Wait × Gates) (ws : List (ℕ × Wait))
      → Passes c i clock gates r
      → All (IsDue c r.1) ws
      → All (IsApart c (i, r.0)) ws
  after-IsApart i clock gates r ws p h =
      All-mono (IsDue c r.1) (IsApart c (i, r.0)) ws
        (λ y due t u e e' same.
          rw (sym (p.renewed t e), sym (same_limiter c i y.0 r.1.buckets same)) (due u e'))
        h

  before-IsDue :
      (i : ℕ) (clock : List ℤ) (gates : Gates) (r : Wait × Gates) (ws : List (ℕ × Wait))
      → Passes c i clock gates r
      → All (IsDue c r.1) ws
      → All (IsDue c gates) ws
  before-IsDue i clock gates r ws p h =
      All-mono (IsDue c r.1) (IsDue c gates) ws (λ y due u e. omega (arith, p.later y.0, due u e)) h

  abbrev Spaced : List (ℕ × List ℤ) → Gates → List (ℕ × Wait) × Gates → Type 0
  Spaced calls gates r =
      (map (λ x. x.0) r.0 ≡ map (λ x. x.0) calls)
      × All (IsDue c gates) r.0
      × Pairwise (IsApart c) r.0

  pass_all-Spaced :
      (calls : List (ℕ × List ℤ)) (gates : Gates)
      → All (λ k. All IsReading k.1) calls
      → IsReady c gates
      → Returns (Spaced calls gates) (pass_all (some g) calls gates)
  unfolding pass_all
  pass_all-Spaced [] gates readings ready = (refl, tt, tt)
  pass_all-Spaced ((i, clock) ∷ calls) gates readings ready =
      Returns->>= (Passes c i clock gates) (Spaced ((i, clock) ∷ calls) gates) _ _
        (pass_gates-Passes g c some_concurrency fits concurrency i clock gates readings.0 ready)
        (λ r p.
          Returns->>= (Spaced calls r.1) (Spaced ((i, clock) ∷ calls) gates) _ _
            (pass_all-Spaced calls r.1 readings.1 p.ready)
            (λ r' h. (
              ap (λ js. i ∷ js) h.0,
              (p.due, before-IsDue i clock gates r r'.0 p h.1),
              (after-IsApart i clock gates r r'.0 p h.1, h.2),
            )))

  -- Calls of any shards, one after the other, on a new manager whose gateway has a positive concurrency
  -- never panic, as long as no reading of the clock is so near the end of an int64 that five seconds
  -- cannot be added. Of two that pass, the later one passes at least five seconds after the other if
  -- the remainders of their shards by the concurrency are the same.
  pub shards-IsApart :
      (n : ℕ) (limiter : ConcurrencyLimiter) (calls : List (ℕ × List ℤ))
      → 0 < n
      → new_concurrency_limiter (pos n) ≡ ret limiter
      → All (λ k. All IsReading k.1) calls
      → Returns
          (λ r. (map (λ x. x.0) r.0 ≡ map (λ x. x.0) calls) × Pairwise (IsApart c) r.0)
          (pass_all (some g) calls (record { buckets = new_bucket_store; ready_limiter = limiter }))
  shards-IsApart n limiter calls positive made readings =
      let gates : Gates = record { buckets = new_bucket_store; ready_limiter = limiter } in
      Returns-mono (Spaced calls gates) _ _ (λ r h. (h.0, h.2))
        (pass_all-Spaced calls gates readings (new-IsReady c n limiter positive made))
