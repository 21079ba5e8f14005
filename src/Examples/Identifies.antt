-- ===== src/Examples/Identifies.antt =====
-- gateway/manager.go, WaitForIdentifyRatelimit, at a concrete input.
use sandwich_producer.Base.{pos, ◌≡◌, refl, [], ◌∷◌, some, arith, Returns}
use sandwich_producer.Events.Packets.{GatewayBot}
use sandwich_producer.Buckets.{new_bucket_store}
use sandwich_producer.Buckets.View.{new-IsValid}
use sandwich_producer.Buckets.Identity.{limiter_of}
use sandwich_producer.Identify.Decimal.{decimal, digits_onto, digit}
use sandwich_producer.Identify.Ratelimit.{
  Identifies, bucket_name, bucket_of, identify_duration, wait_for_identify_ratelimit,
  wait_for_identify_ratelimit-Identifies,
}

name_of_shard_28 : bucket_name (pos 12) ≡ "/gateway/bot/12"
unfolding bucket_name decimal digits_onto digit
name_of_shard_28 = refl

-- A gateway that lets sixteen shards identify at once.
abbrev pub gateway : GatewayBot
gateway = record {
  url = "wss://gateway.discord.gg";
  shards = pos 32;
  session_start_limit = record {
    total = pos 1000;
    remaining = pos 999;
    reset_after = pos 0;
    max_concurrency = pos 16;
  };
}

wait_for_identify_ratelimit-Identifies_example :
    Returns
      (Identifies 16 28
        (limiter_of new_bucket_store (bucket_of 16 28) (pos 1) identify_duration)
        (pos 9 ∷ [])
        new_bucket_store)
      (wait_for_identify_ratelimit (some gateway) (pos 28) (pos 9 ∷ []) new_bucket_store)
wait_for_identify_ratelimit-Identifies_example =
    wait_for_identify_ratelimit-Identifies new-IsValid gateway 16 (omega arith) (omega arith) refl
      28 (pos 9 ∷ [])
