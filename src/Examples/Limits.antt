-- ===== src/Examples/Limits.antt =====
-- gateway/limiter.go and gateway/bucket_store.go at concrete inputs.
use Prim.Native.Nat.{min}
use sandwich_producer.Base.{
  suc, pos, ◌≡◌, ◌≢◌, refl, [], ◌∷◌, none, arith, get, string_key, ◌+ℤ◌, wrap32, System, Step, pick,
  Steps, here, later,
}
use sandwich_producer.Limiter.Concurrency.{
  ConcurrencyLimiter, fill, new_concurrency_limiter, receive, count_up, progress,
}
use sandwich_producer.Limiter.Concurrency.Steps.{
  Pc, outside, received, holding, TicketMove, receives, counts_up, Reach, runs,
}
use sandwich_producer.Limiter.Concurrency.Invariant.{has}
use sandwich_producer.Limiter.Concurrency.Tickets.{ticket_exclusive, limiter_moves}
use sandwich_producer.Limiter.Duration.{DefaultLimiter, new_duration_limiter}
use sandwich_producer.Limiter.Duration.Window.{admissions, admissions-window}
use sandwich_producer.Buckets.{BucketStore, new_bucket_store, create_wait_for_bucket}
use sandwich_producer.Buckets.View.{new-IsValid}
use sandwich_producer.Buckets.Identity.{Locks, limiter_of, create_wait_for_bucket-Locks}
use sandwich_producer.Buckets.Race.{asking, slot, BucketMove, bucket_race}

-- Two tickets, two goroutines: each has received one.
abbrev made : ConcurrencyLimiter
made = record { limit = pos 2; tickets = pos 0 ∷ pos 1 ∷ []; in_progress = pos 0 }

abbrev one_left : ConcurrencyLimiter
one_left = record made { tickets = pos 1 ∷ [] }

abbrev none_left : ConcurrencyLimiter
none_left = record made { tickets = [] }

abbrev both : System ConcurrencyLimiter Pc
both = record { shared = none_left; pcs = received (pos 0) ∷ received (pos 1) ∷ [] }

both-Reach : Reach 2 2 both
unfolding new_concurrency_limiter fill receive
both-Reach = runs made refl (later (later here (first)) second)
  where
    first :
        Step TicketMove
          (record { shared = made; pcs = outside ∷ outside ∷ [] })
          (record { shared = one_left; pcs = received (pos 0) ∷ outside ∷ [] })
    first = pick [] (outside ∷ []) refl (receives refl) refl

    second :
        Step TicketMove (record { shared = one_left; pcs = received (pos 0) ∷ outside ∷ [] }) both
    second = pick (received (pos 0) ∷ []) [] refl (receives refl) refl

ticket_exclusive_example : has (pos 0) (received (pos 1)) ≢ 1
ticket_exclusive_example =
    ticket_exclusive (omega arith) both-Reach [] [] [] (received (pos 0)) (received (pos 1)) (pos 0)
      refl refl

limiter_moves_example : (t : System ConcurrencyLimiter Pc) × Step TicketMove both t
limiter_moves_example = limiter_moves (omega arith) both-Reach (omega arith) (omega arith)

-- The first goroutine has counted its ticket, and gives it back.
abbrev counted : System ConcurrencyLimiter Pc
counted = record { shared = count_up none_left; pcs = holding (pos 0) ∷ received (pos 1) ∷ [] }

counted-Reach : Reach 2 2 counted
counted-Reach = counts both-Reach
  where
    counts : Reach 2 2 both → Reach 2 2 counted
    counts (runs c e r) = runs c e (later r (pick [] (received (pos 1) ∷ []) refl counts_up refl))

-- InProgress can run ahead of the limit: with one ticket, the second goroutine gets it and counts
-- it before the first has counted its return.
abbrev overlap : ConcurrencyLimiter
overlap = count_up (record { limit = pos 1; tickets = []; in_progress = pos 1 })

progress-overlap : progress overlap ≡ pos 2
unfolding progress count_up ◌+ℤ◌ wrap32
progress-overlap = refl

-- One slot every five seconds.
abbrev identify_limiter : DefaultLimiter
identify_limiter = new_duration_limiter (pos 1) (pos 5000000000)

admissions-window_example :
    (admissions (pos 100 ∷ pos 200 ∷ pos 300 ∷ []) identify_limiter).0 ≡ min 1 (suc 2)
unfolding new_duration_limiter ◌+ℤ◌
admissions-window_example =
    admissions-window (pos 100) (pos 200 ∷ pos 300 ∷ []) identify_limiter 1 (omega arith) refl
      (omega arith) (omega arith) (omega arith)

create_wait_for_bucket-Locks_example :
    Locks "/gateway/bot/0"
      (limiter_of new_bucket_store "/gateway/bot/0" (pos 1) (pos 5))
      (pos 9 ∷ [])
      new_bucket_store
      (create_wait_for_bucket "/gateway/bot/0" (pos 1) (pos 5) (pos 9 ∷ []) new_bucket_store)
create_wait_for_bucket-Locks_example =
    create_wait_for_bucket-Locks new-IsValid "/gateway/bot/0" (pos 1) (pos 5) (pos 9 ∷ [])

no_bucket : get "/gateway/bot/0" (new_bucket_store).buckets ≡ none
unfolding get new_bucket_store
no_bucket = refl

bucket_race_example :
    (bs : BucketStore) × Steps
      (BucketMove "/gateway/bot/0" (pos 1) (pos 5))
      (record { shared = new_bucket_store; pcs = asking ∷ asking ∷ [] })
      (record { shared = bs; pcs = slot (pos 9) ∷ slot (pos 9) ∷ [] })
bucket_race_example = bucket_race "/gateway/bot/0" (pos 5) [] new_bucket_store 9 no_bucket
