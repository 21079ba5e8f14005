-- ===== src/Startup/Calls.antt =====
-- gateway/shard.go, the start of `connect`: what one call leaves of the state that the shards share.
use mathlib.Core.Path.{subst}
use sandwich_producer.Base.{
  ret, get, ℕ, ℤ, pos, ◌%◌, ◌^◌, ◌<◌, ◌≡◌, refl, sym, ◌∙◌, ap, List, Option, none, some, arith, All,
  Returns, Returns->>=, ◌+ℤ◌, ◌≤ℤ◌, Bool-cases, inl, inr, ◌⊎◌, ◌==◌, if◌then◌else◌,
}
use sandwich_producer.Events.Packets.{GatewayBot}
use sandwich_producer.Limiter.Duration.{DefaultLimiter, new_duration_limiter, lock}
use sandwich_producer.Limiter.Concurrency.{new_concurrency_limiter, ConcurrencyLimiter}
use sandwich_producer.Startup.Limiters.{
  IsSpent, Spends, IsReading, lock-Spends, Reaches, lock-Reaches, lock-resets_at, IsRested,
  take_and_free-IsRested, new-IsRested,
}
use sandwich_producer.Startup.{Gates, after_identify, pass_gates}
use sandwich_producer.Buckets.{
  new_bucket_store, BucketStore, Wait, refused, passed, waiting, crashed, wait_of,
}
use sandwich_producer.Buckets.View.{IsValid, new-IsValid}
use sandwich_producer.Buckets.Identity.{limiter_of}
use sandwich_producer.Identify.Ratelimit.{
  identify_duration, bucket_of, bucket_name, Identifies, wait_for_identify_ratelimit-Identifies,
}

-- The limiter of a shard with a concurrency of `c`.
abbrev pub limiter_at : ℕ → ℕ → BucketStore → DefaultLimiter
limiter_at c i bs = limiter_of bs (bucket_of c i) (pos 1) identify_duration

-- What holds of the gates between two calls.
pub record IsReady (c : ℕ) (gates : Gates) : Type 0 where
  pub valid : IsValid gates.buckets
  pub spent : (i : ℕ) → IsSpent (limiter_at c i gates.buckets)
  pub rested : IsRested gates.ready_limiter

-- The gates of a new manager with a ticket.
pub new-IsReady :
    (c n : ℕ) (limiter : ConcurrencyLimiter)
    → 0 < n
    → new_concurrency_limiter (pos n) ≡ ret limiter
    → IsReady c (record { buckets = new_bucket_store; ready_limiter = limiter })
unfolding new_bucket_store limiter_of new_duration_limiter new_concurrency_limiter get
new-IsReady c n limiter positive made = record {
  valid = new-IsValid;
  spent = λ i. record { limited = refl; lasting = refl; empty = refl };
  rested = new-IsRested n limiter positive made;
}

-- What a call of the shard `i` leaves, and when it may pass.
pub record Passes (c i : ℕ) (clock : List ℤ) (gates : Gates) (r : Wait × Gates) : Type 0 where
  pub ready : IsReady c r.1
  pub later :
      (j : ℕ) → (limiter_at c j gates.buckets).resets_at ≤ℤ (limiter_at c j r.1.buckets).resets_at
  pub due : (t : ℤ) → r.0 ≡ passed t → (limiter_at c i gates.buckets).resets_at ≤ℤ t
  pub renewed :
      (t : ℤ) → r.0 ≡ passed t → (limiter_at c i r.1.buckets).resets_at ≡ t +ℤ identify_duration
  pub prompt : Reaches (limiter_at c i gates.buckets).resets_at clock → (t : ℤ) × (r.0 ≡ passed t)
  pub kept :
      (j : ℕ) (times : List ℤ)
      → Reaches (limiter_at c j gates.buckets).resets_at times
      → All (λ t. Reaches (t +ℤ identify_duration) times) clock
      → Reaches (limiter_at c j r.1.buckets).resets_at times

limiter_at-Identifies :
    (c i : ℕ) (clock : List ℤ) (bs : BucketStore) (r : Wait × BucketStore)
    → Identifies c i (limiter_at c i bs) clock bs r
    → (j : ℕ)
    → limiter_at c j r.1
      ≡ (if i % c == j % c then (lock clock (limiter_at c i bs)).1 else limiter_at c j bs)
unfolding limiter_of
limiter_at-Identifies c i clock bs r k j = elim (Bool-cases (i % c == j % c)) [
  | inl same ↦ rw (limiter_of, k.limiters j, same) refl
  | inr other ↦ rw (limiter_of, k.limiters j, other) refl
]

pub same_limiter :
    (c i j : ℕ) (bs : BucketStore) → i % c ≡ j % c → limiter_at c j bs ≡ limiter_at c i bs
same_limiter c i j bs e =
    ap (λ n. limiter_of bs (bucket_name (pos n)) (pos 1) identify_duration) (sym e)

after_identify_lem :
    (w : Wait) (gates : Gates)
    → IsRested gates.ready_limiter
    → (c : ConcurrencyLimiter) × IsRested c
      × (after_identify w gates ≡ (w, record gates { ready_limiter = c }))
unfolding after_identify
after_identify_lem (refused e) gates r = (gates.ready_limiter, r, refl)
after_identify_lem (passed t) gates r =
    let (c, e, r') = take_and_free-IsRested gates.ready_limiter r in
    (c, r', rw (after_identify, e) refl)
after_identify_lem waiting gates r = (gates.ready_limiter, r, refl)
after_identify_lem (crashed p) gates r = (gates.ready_limiter, r, refl)

wait_of-passed : (o : Option ℤ) (t : ℤ) → wait_of o ≡ passed t → o ≡ some t
wait_of-passed none t e = cc
wait_of-passed (some u) t e = cc

module _ (c i : ℕ) (clock : List ℤ) (readings : All IsReading clock) (gates : Gates)
    (ready : IsReady c gates) (r : Wait × BucketStore)
    (k : Identifies c i (limiter_at c i gates.buckets) clock gates.buckets r) where
  spends : Spends (limiter_at c i gates.buckets) (lock clock (limiter_at c i gates.buckets))
  spends = lock-Spends clock (limiter_at c i gates.buckets) (ready.spent i) readings

  slot_got : (t : ℤ) → r.0 ≡ passed t → (lock clock (limiter_at c i gates.buckets)).0 ≡ some t
  slot_got t e = wait_of-passed _ t (sym k.outcome ∙ e)

  -- A limiter is kept, or has been locked by the call.
  kept_or_locked :
      (j : ℕ)
      → ((i % c ≡ j % c) × (limiter_at c j r.1 ≡ (lock clock (limiter_at c i gates.buckets)).1))
        ⊎ (limiter_at c j r.1 ≡ limiter_at c j gates.buckets)
  kept_or_locked j = ground (arith, limiter_at-Identifies c i clock gates.buckets r k j)

  after-IsSpent : (j : ℕ) → IsSpent (limiter_at c j r.1)
  after-IsSpent j = elim (kept_or_locked j) [
    | inl (same, e) ↦ rw e spends.spent
    | inr e ↦ rw e (ready.spent j)
  ]

  later_after : (j : ℕ) → (limiter_at c j gates.buckets).resets_at ≤ℤ (limiter_at c j r.1).resets_at
  later_after j = elim (kept_or_locked j) [
    | inl (same, e) ↦ rw (e, same_limiter c i j gates.buckets same) spends.later
    | inr e ↦ rw e (omega arith)
  ]

  locked_after : limiter_at c i r.1 ≡ (lock clock (limiter_at c i gates.buckets)).1
  locked_after = ground (arith, limiter_at-Identifies c i clock gates.buckets r k i)

  prompt_after : Reaches (limiter_at c i gates.buckets).resets_at clock → (t : ℤ) × (r.0 ≡ passed t)
  prompt_after reached =
      let (t, e) =
        lock-Reaches clock (limiter_at c i gates.buckets) (ready.spent i) readings reached in
      (t, k.outcome ∙ ap wait_of e)

  kept_after :
      (j : ℕ) (times : List ℤ)
      → Reaches (limiter_at c j gates.buckets).resets_at times
      → All (λ t. Reaches (t +ℤ identify_duration) times) clock
      → Reaches (limiter_at c j r.1).resets_at times
  kept_after j times reached later = elim (kept_or_locked j) [
    | inl (same, e) ↦ rw e (
        lock-resets_at clock times (limiter_at c i gates.buckets) (ready.spent i) readings
          (subst (λ l. Reaches l.resets_at times) (same_limiter c i j gates.buckets same) reached)
          later)
    | inr e ↦ rw e reached
  ]

  after_identify-Passes :
      Passes c i clock gates (after_identify r.0 (record gates { buckets = r.1 }))
  after_identify-Passes =
      let (rl, rested, e) = after_identify_lem r.0 (record gates { buckets = r.1 }) ready.rested in
      rw e (record {
        ready = record { valid = k.valid; spent = after-IsSpent; rested = rested };
        later = later_after;
        due = λ t e'. spends.due t (slot_got t e');
        renewed = λ t e'. rw locked_after (spends.renewed t (slot_got t e'));
        prompt = prompt_after;
        kept = kept_after;
      })

module _ (g : GatewayBot) (c : ℕ) (some_concurrency : 0 < c) (fits : c < 2 ^ 63)
    (concurrency : g.session_start_limit.max_concurrency ≡ pos c) where
  pub pass_gates-Passes :
      (i : ℕ) (clock : List ℤ) (gates : Gates)
      → All IsReading clock
      → IsReady c gates
      → Returns (Passes c i clock gates) (pass_gates (some g) (pos i) clock gates)
  unfolding pass_gates
  pass_gates-Passes i clock gates readings ready =
      Returns->>= (Identifies c i (limiter_at c i gates.buckets) clock gates.buckets)
        (Passes c i clock gates) _ _
        (wait_for_identify_ratelimit-Identifies ready.valid g c some_concurrency fits concurrency i
          clock)
        (λ r k. after_identify-Passes c i clock readings gates ready r k)
