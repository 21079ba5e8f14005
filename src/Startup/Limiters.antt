-- ===== src/Startup/Limiters.antt =====
-- gateway/limiter.go: the two limiters that a shard waits for before it dials.
use sandwich_producer.Base.{
  ret, ℕ, suc, List-cases, ℤ, pos, ◌<◌, ◌≡◌, refl, List, [], ◌∷◌, Option, some, arith, All, ◌+ℤ◌,
  ◌-ℤ◌, ◌≤ℤ◌, ◌<ℤ◌, IsInt64, wrap64_id, wrap32, wrap64, leb_ℤ, Bool-cases, inl, inr, ◌⊎◌, length,
  ◌++◌, length-append,
}
use sandwich_producer.Limiter.Duration.{DefaultLimiter, acquires, sleeps, pass, lock}
use sandwich_producer.Limiter.Concurrency.Invariant.{length-fill}
use sandwich_producer.Limiter.Concurrency.{
  new_concurrency_limiter, ConcurrencyLimiter, wait, free_ticket, receive, send, count_up,
  count_down,
}
use sandwich_producer.Startup.{take_and_free}
use sandwich_producer.Identify.Ratelimit.{identify_duration}

-- Between two calls, a limiter of one slot has none left.
pub record IsSpent (l : DefaultLimiter) : Type 0 where
  pub limited : l.limit ≡ pos 1
  pub lasting : l.duration ≡ identify_duration
  pub empty : l.available ≡ pos 0

-- What `Lock` leaves of such a limiter, and the slot that it gets.
pub record Spends (l : DefaultLimiter) (x : Option ℤ × DefaultLimiter) : Type 0 where
  pub spent : IsSpent x.1
  pub later : l.resets_at ≤ℤ x.1.resets_at
  pub due : (t : ℤ) → x.0 ≡ some t → l.resets_at ≤ℤ t
  pub renewed : (t : ℤ) → x.0 ≡ some t → x.1.resets_at ≡ t +ℤ identify_duration

-- A time that five seconds may be added to.
abbrev pub IsReading : ℤ → Type 0
IsReading t = IsInt64 (t +ℤ identify_duration)

-- What a pass that finds the reset time reached leaves.
abbrev restarted : ℤ → DefaultLimiter → DefaultLimiter
restarted now l = record l { resets_at = now +ℤ identify_duration; available = pos 0 }

pass_spent :
    (now : ℤ) (l : DefaultLimiter)
    → IsSpent l
    → IsReading now
    → ((l.resets_at ≤ℤ now) × (pass now l ≡ acquires (restarted now l)))
      ⊎ ((now <ℤ l.resets_at) × (pass now l ≡ sleeps (wrap64 (l.resets_at -ℤ now)) l))
unfolding pass wrap32 ◌-ℤ◌
pass_spent now l s h = elim (Bool-cases (leb_ℤ l.resets_at now)) [
  | inl stale ↦ ground (arith, wrap64_id (now +ℤ identify_duration) h, s.limited, s.lasting)
  | inr fresh ↦ inr (ground (arith, fresh), ground (arith, s.empty))
]

-- One of the readings has reached a time.
abbrev pub Reaches : ℤ → List ℤ → Type 0
Reaches v [] = ⊥
Reaches v (t ∷ times) = (v ≤ℤ t) ⊎ Reaches v times

at_most_later : (a b : ℤ) → a ≤ℤ b → a ≤ℤ b +ℤ identify_duration
unfolding ◌+ℤ◌
at_most_later a b h = ground arith

pub lock-Spends :
    (clock : List ℤ) (l : DefaultLimiter)
    → IsSpent l
    → All IsReading clock
    → Spends l (lock clock l)
unfolding lock
lock-Spends [] l s h = record {
  spent = s;
  later = omega arith;
  due = λ t e. cc;
  renewed = λ t e. cc;
}
lock-Spends (now ∷ clock) l s h = elim (pass_spent now l s h.0) [
  | inl (stale, e) ↦
      rw (lock, e)
        (record {
          spent = record { limited = s.limited; lasting = s.lasting; empty = refl };
          later = at_most_later l.resets_at now stale;
          due = λ t e'. ground (arith, stale, e');
          renewed = λ t e'. cc;
        })
  | inr (fresh, e) ↦ rw (lock, e) (lock-Spends clock l s h.1)
]

-- Lock returns if a reading has reached the reset time.
pub lock-Reaches :
    (clock : List ℤ) (l : DefaultLimiter)
    → IsSpent l
    → All IsReading clock
    → Reaches l.resets_at clock
    → (t : ℤ) × ((lock clock l).0 ≡ some t)
unfolding lock
lock-Reaches [] l s h r = absurd r
lock-Reaches (now ∷ clock) l s h r = elim (pass_spent now l s h.0) [
  | inl (stale, e) ↦ (now, rw (lock, e) refl)
  | inr (fresh, e) ↦ elim r [
    | inl reached ↦ absurd (omega (arith, fresh, reached))
    | inr r' ↦ rw (lock, e) (lock-Reaches clock l s h.1 r')
  ]
]

-- The reset time stays, or is five seconds after a reading.
pub lock-resets_at :
    (clock times : List ℤ) (l : DefaultLimiter)
    → IsSpent l
    → All IsReading clock
    → Reaches l.resets_at times
    → All (λ t. Reaches (t +ℤ identify_duration) times) clock
    → Reaches (lock clock l).1.resets_at times
unfolding lock
lock-resets_at [] times l s h r later = r
lock-resets_at (now ∷ clock) times l s h r later = elim (pass_spent now l s h.0) [
  | inl (stale, e) ↦ rw (lock, e) later.0
  | inr (fresh, e) ↦ rw (lock, e) (lock-resets_at clock times l s h.1 r later.1)
]

-- A limiter whose tickets are all in the channel.
pub record IsRested (c : ConcurrencyLimiter) : Type 0 where
  pub some_ticket : 0 < length c.tickets
  pub all_there : c.limit ≡ pos (length c.tickets)
  pub none_counted : c.in_progress ≡ pos 0

module _ (c : ConcurrencyLimiter) where
  take_and_free_lem :
      (t : ℤ) (rest : List ℤ)
      → c.tickets ≡ t ∷ rest
      → c.limit ≡ pos (suc (length rest))
      → c.in_progress ≡ pos 0
      → take_and_free c ≡ some (record c { tickets = rest ++ t ∷ []; in_progress = pos 0 })
  unfolding take_and_free wait free_ticket receive send count_up count_down wrap32 ◌-ℤ◌ ◌+ℤ◌
  take_and_free_lem t rest e limited h = ground arith

  -- A goroutine that takes a ticket and frees it at once is not blocked.
  pub take_and_free-IsRested :
      IsRested c → (c' : ConcurrencyLimiter) × (take_and_free c ≡ some c') × IsRested c'
  take_and_free-IsRested r = elim (List-cases c.tickets) [
    | inl e ↦ ground (arith, r.some_ticket)
    | inr (t, rest, e) ↦ (
      record c { tickets = rest ++ t ∷ []; in_progress = pos 0 },
      take_and_free_lem t rest e (ground (arith, r.all_there)) r.none_counted,
      record {
        some_ticket = ground (arith, length-append rest (t ∷ []));
        all_there = ground (arith, r.all_there, length-append rest (t ∷ []));
        none_counted = refl;
      },
    )
  ]

pub new-IsRested :
    (n : ℕ) (c : ConcurrencyLimiter) → 0 < n → new_concurrency_limiter (pos n) ≡ ret c → IsRested c
unfolding new_concurrency_limiter
new-IsRested n c positive made = ground (arith, length-fill n 0 [])
