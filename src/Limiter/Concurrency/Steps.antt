-- ===== src/Limiter/Concurrency/Steps.antt =====
-- Goroutines that call `Wait` and then `FreeTicket` with the ticket they got, interleaved at the
-- atomic operations of the two.
use sandwich_producer.Base.{ℕ, zero, suc, ℤ, pos, ◌≡◌, List, [], ◌∷◌, some, ret, System, Steps}
use sandwich_producer.Limiter.Concurrency.{
  ConcurrencyLimiter, receive, count_up, send, count_down, new_concurrency_limiter,
}

-- Where a goroutine stands: outside the limiter, between the receive and the count of `Wait`, with
-- a ticket, and between the send and the count of `FreeTicket`.
pub data Pc : Type 0 where
  outside : Pc
  received : ℤ → Pc
  holding : ℤ → Pc
  sent : Pc

pub data TicketMove (c : ConcurrencyLimiter) : Pc → ConcurrencyLimiter → Pc → Type 0 where
  receives :
      {t : ℤ} {c' : ConcurrencyLimiter}
      → receive c ≡ some (t, c')
      → TicketMove c outside c' (received t)
  counts_up : {t : ℤ} → TicketMove c (received t) (count_up c) (holding t)
  sends : {t : ℤ} {c' : ConcurrencyLimiter} → send t c ≡ some c' → TicketMove c (holding t) c' sent
  counts_down : TicketMove c sent (count_down c) outside

abbrev pub all_outside : ℕ → List Pc
all_outside zero = []
all_outside (suc k) = outside ∷ all_outside k

-- From a limiter that `NewConcurrencyLimiter` has made for `n`, and `k` goroutines outside it.
pub data Reach (n k : ℕ) (s : System ConcurrencyLimiter Pc) : Type 0 where
  runs :
      (c : ConcurrencyLimiter)
      → new_concurrency_limiter (pos n) ≡ ret c
      → Steps TicketMove (record { shared = c; pcs = all_outside k }) s
      → Reach n k s
