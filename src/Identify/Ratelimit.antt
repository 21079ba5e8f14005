-- ===== src/Identify/Ratelimit.antt =====
-- gateway/manager.go, WaitForIdentifyRatelimit: the wait for a position to identify a session.
use Prim.Native.String.{◌++◌}
use text.Mathlib.TextLemmas.{append_inj}
use sandwich_producer.Base.{
  ℕ, ℤ, pos, ◌%◌, ◌^◌, ◌<◌, ◌≡◌, ◌↔◌, refl, ap, List, Option, some, String, arith, Outcome, Returns,
  ret, ◌>>=◌, ◌==◌, if◌then◌else◌, eq_iff, pos-rem_ℤ,
}
use sandwich_producer.Events.Packets.{GatewayBot}
use sandwich_producer.Limiter.Duration.{DefaultLimiter, lock}
use sandwich_producer.Buckets.{BucketStore, Wait, wait_of, create_wait_for_bucket}
use sandwich_producer.Buckets.View.{IsValid, view}
use sandwich_producer.Buckets.Identity.{Locks, limiter_of, create_wait_for_bucket-Locks}
use sandwich_producer.Identify.{go_rem, identify_key}
use sandwich_producer.Identify.Decimal.{decimal, decimal_iff}

-- `fmt.Sprintf("/gateway/bot/%d", key)`
unfoldable pub bucket_name : ℤ → String
bucket_name key = "/gateway/bot/" ++ decimal key

-- `5 * time.Second`
abbrev pub identify_duration : ℤ
identify_duration = pos 5000000000

unfoldable pub wait_for_identify_ratelimit :
    Option GatewayBot → ℤ → List ℤ → BucketStore → Outcome (Wait × BucketStore)
wait_for_identify_ratelimit gateway shard_id clock bs = identify_key gateway shard_id >>= λ key.
    ret (create_wait_for_bucket (bucket_name key) (pos 1) identify_duration clock bs)

bucket_name_iff :
    (a b : ℕ) → a < 10 ^ 20 → b < 10 ^ 20 → (bucket_name (pos a) ≡ bucket_name (pos b)) ↔ (a ≡ b)
unfolding bucket_name
bucket_name_iff a b ha hb = (
  λ e. (decimal_iff a b ha hb).0 (append_inj e refl).1,
  λ e. ap (λ n. "/gateway/bot/" ++ decimal (pos n)) e,
)

-- The bucket of the shard `i` with a concurrency of `c`.
abbrev pub bucket_of : ℕ → ℕ → String
bucket_of c i = bucket_name (pos (i % c))

-- What a wait of the shard `i` comes to: the outcome of the lock of its limiter, which the shards
-- with the same remainder share, and the limiters of the other shards as they were.
pub record Identifies (c i : ℕ) (l : DefaultLimiter) (clock : List ℤ) (bs : BucketStore)
    (r : Wait × BucketStore) : Type 0 where
  pub outcome : r.0 ≡ wait_of (lock clock l).0
  pub valid : IsValid r.1
  pub limiters :
      (j : ℕ)
      → view r.1 (bucket_of c j)
        ≡ (if i % c == j % c then some (lock clock l).1 else view bs (bucket_of c j))

module _ {bs : BucketStore} (v : IsValid bs) (g : GatewayBot) (c : ℕ) (some_concurrency : 0 < c)
    (fits : c < 2 ^ 63) (concurrency : g.session_start_limit.max_concurrency ≡ pos c) (i : ℕ) where
  identify_key_lem : identify_key (some g) (pos i) ≡ ret (pos (i % c))
  unfolding identify_key go_rem
  identify_key_lem = rw (concurrency, pos-rem_ℤ i c) (ground arith)

  key_small : (j : ℕ) → j % c < 10 ^ 20
  key_small j = grind arith

  Locks-Identifies :
      (l : DefaultLimiter) (clock : List ℤ) (r : Wait × BucketStore)
      → Locks (bucket_of c i) l clock bs r
      → Identifies c i l clock bs r
  Locks-Identifies l clock r k = record {
    outcome = k.outcome;
    valid = k.valid;
    limiters = λ j. ground (
      arith,
      k.viewed (bucket_of c j),
      eq_iff (bucket_of c i) (bucket_of c j),
      bucket_name_iff (i % c) (j % c) (key_small i) (key_small j),
    );
  }

  -- On a valid store, a shard waits for a slot of the limiter that it shares with exactly the shards
  -- whose ids have the same remainder by the gateway's concurrency, a limiter of one slot in five
  -- seconds if there was none. The limiters of the other shards stay as they were.
  pub wait_for_identify_ratelimit-Identifies :
      (clock : List ℤ)
      → Returns
          (Identifies c i (limiter_of bs (bucket_of c i) (pos 1) identify_duration) clock bs)
          (wait_for_identify_ratelimit (some g) (pos i) clock bs)
  unfolding wait_for_identify_ratelimit
  wait_for_identify_ratelimit-Identifies clock =
      rw (identify_key_lem, ◌>>=◌)
        (Locks-Identifies (limiter_of bs (bucket_of c i) (pos 1) identify_duration) clock _
          (create_wait_for_bucket-Locks v (bucket_of c i) (pos 1) identify_duration clock))
