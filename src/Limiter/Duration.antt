-- ===== src/Limiter/Duration.antt =====
-- gateway/limiter.go, DefaultLimiter: a number of slots that is filled up again once the reset time
-- has passed. Times are nanoseconds, as `UnixNano` counts them.
pub mod Window
pub mod Race
pub mod Overdraft
use sandwich_producer.Base.{
  ℤ, pos, ◌+ℤ◌, ◌-ℤ◌, wrap32, wrap64, leb_ℤ, if◌then◌else◌, List, [], ◌∷◌, Option, none, some,
}

pub record DefaultLimiter : Type 0 where
  pub limit : ℤ
  pub duration : ℤ
  pub resets_at : ℤ
  pub available : ℤ

-- NewDurationLimiter; a duration counts nanoseconds already.
unfoldable pub new_duration_limiter : ℤ → ℤ → DefaultLimiter
new_duration_limiter limit duration = record {
  limit = limit;
  duration = duration;
  resets_at = pos 0;
  available = pos 0;
}

-- The two stores at the start of `Lock`, one after the other.
unfoldable pub store_resets_at : ℤ → DefaultLimiter → DefaultLimiter
store_resets_at now l = record l { resets_at = wrap64 (now +ℤ l.duration) }

unfoldable pub store_available : DefaultLimiter → DefaultLimiter
store_available l = record l { available = l.limit }

-- `if resetsAt <= now { … }`
unfoldable pub refresh : ℤ → DefaultLimiter → DefaultLimiter
unfolding store_resets_at store_available
refresh now l = if leb_ℤ l.resets_at now then store_available (store_resets_at now l) else l

-- `atomic.AddInt32(l.available, -1)`
unfoldable pub take_slot : DefaultLimiter → DefaultLimiter
take_slot l = record l { available = wrap32 (l.available -ℤ pos 1) }

-- What one pass of `Lock` comes to: a slot, or a sleep for so long and then another pass.
pub data Pass : Type 0 where
  acquires : DefaultLimiter → Pass
  sleeps : ℤ → DefaultLimiter → Pass

unfoldable pub pass : ℤ → DefaultLimiter → Pass
unfolding refresh take_slot
pass now l =
    let l' = refresh now l in
    if leb_ℤ l'.available (pos 0)
    then sleeps (wrap64 (l'.resets_at -ℤ now)) l'
    else acquires (take_slot l')

-- Lock, with no other goroutine in between: one reading of the clock for each pass. `none` means
-- that it still waits when the readings are used up. The second component is what the passes leave.
unfoldable pub lock : List ℤ → DefaultLimiter → Option ℤ × DefaultLimiter
unfolding pass
lock [] l = (none, l)
lock (now ∷ clock) l = elim (pass now l) [
  | acquires l' ↦ (some now, l')
  | sleeps d l' ↦ lock clock l'
]
