-- ===== src/Limiter/Concurrency.antt =====
-- gateway/limiter.go, ConcurrencyLimiter: tickets in a buffered channel and an atomic counter.
-- A call is split at its atomic operations, since other goroutines run between them.
pub mod Steps
pub mod Invariant
pub mod Tickets
use sandwich_producer.Base.{
  ℕ, zero, suc, ℤ, pos, ◌+ℤ◌, ◌-ℤ◌, wrap32, pos_part, ltb_ℤ, if◌then◌else◌, List, [], ◌∷◌, ◌++◌,
  Option, none, some, Outcome, ret, panic, bad_channel_size, length,
}

-- `tickets` is what the channel holds, oldest first. Its capacity is `limit`.
pub record ConcurrencyLimiter : Type 0 where
  pub limit : ℤ
  pub tickets : List ℤ
  pub in_progress : ℤ

-- `for i := 0; i < c.limit; i++ { c.tickets <- i }`, with the rounds that are left and `i`.
unfoldable pub fill : ℕ → ℕ → List ℤ → List ℤ
fill zero i tickets = tickets
fill (suc k) i tickets = fill k (suc i) (tickets ++ pos i ∷ [])

-- `make(chan int, limit)` panics on a negative size.
unfoldable pub new_concurrency_limiter : ℤ → Outcome ConcurrencyLimiter
new_concurrency_limiter limit =
    if ltb_ℤ limit (pos 0)
    then panic bad_channel_size
    else ret (record { limit = limit; tickets = fill (pos_part limit) 0 []; in_progress = pos 0 })

-- The receive of `Wait`: it blocks (`none`) on an empty channel.
unfoldable pub receive : ConcurrencyLimiter → Option (ℤ × ConcurrencyLimiter)
receive c = elim c.tickets [ [] ↦ none | t ∷ rest ↦ some (t, record c { tickets = rest }) ]

unfoldable pub count_up : ConcurrencyLimiter → ConcurrencyLimiter
count_up c = record c { in_progress = wrap32 (c.in_progress +ℤ pos 1) }

-- The send of `FreeTicket`: it blocks on a full channel.
unfoldable pub send : ℤ → ConcurrencyLimiter → Option ConcurrencyLimiter
send t c =
    if ltb_ℤ (pos (length c.tickets)) c.limit
    then some (record c { tickets = c.tickets ++ t ∷ [] })
    else none

unfoldable pub count_down : ConcurrencyLimiter → ConcurrencyLimiter
count_down c = record c { in_progress = wrap32 (c.in_progress -ℤ pos 1) }

-- Wait and FreeTicket with no other goroutine between their steps.
unfoldable pub wait : ConcurrencyLimiter → Option (ℤ × ConcurrencyLimiter)
unfolding receive count_up
wait c = elim (receive c) [ none ↦ none | some (t, c') ↦ some (t, count_up c') ]

unfoldable pub free_ticket : ℤ → ConcurrencyLimiter → Option ConcurrencyLimiter
unfolding send count_down
free_ticket t c = elim (send t c) [ none ↦ none | some c' ↦ some (count_down c') ]

unfoldable pub progress : ConcurrencyLimiter → ℤ
progress c = c.in_progress
