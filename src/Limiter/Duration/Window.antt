-- ===== src/Limiter/Duration/Window.antt =====
-- gateway/limiter.go, DefaultLimiter with one goroutine at a time: how many slots a window has, and
-- when `Lock` returns.
use sandwich_producer.Base.{
  ℕ, zero, suc, ℤ, pos, ◌+◌, ◌-◌, ◌<◌, ◌^◌, ◌≡◌, ◌⊎◌, refl, ◌+ℤ◌, ◌-ℤ◌, wrap32, ◌<ℤ◌, ◌≤ℤ◌, List,
  [], ◌∷◌, none, some, arith, length, All, IsInt64, wrap64_id,
}
use Prim.Native.Nat.{min}
use sandwich_producer.Limiter.Duration.{
  DefaultLimiter, new_duration_limiter, refresh, Pass, acquires, sleeps, pass, lock,
}

-- The passes of a history, in the order of the clock: how many of them get a slot, and the limiter
-- that they leave.
admit : Pass → ℕ × DefaultLimiter
admit (acquires l) = (1, l)
admit (sleeps d l) = (0, l)

pub admissions : List ℤ → DefaultLimiter → ℕ × DefaultLimiter
unfolding admit
admissions [] l = (0, l)
admissions (now ∷ times) l =
    let (one, l') = admit (pass now l) in let (rest, l'') = admissions times l' in (one + rest, l'')

-- Before the reset time a pass takes one of the slots that are left.
admissions-min :
    (times : List ℤ) (l : DefaultLimiter) (a : ℕ)
    → a < 2 ^ 31
    → l.available ≡ pos a
    → All (λ t. t <ℤ l.resets_at) times
    → (admissions times l).0 ≡ min a (length times)
unfolding admissions pass ◌-ℤ◌ wrap32
admissions-min [] l a small e h = omega arith
admissions-min (t ∷ times) l zero small e h = ground (arith, admissions-min times l zero)
admissions-min (t ∷ times) l (suc a) small e h =
    ground (arith, admissions-min times (record l { available = pos a }) a)

-- What a pass at the reset time leaves: a new window, with one slot gone if there was one.
abbrev renewed : ℤ → ℕ → DefaultLimiter → DefaultLimiter
renewed w n l = record l { resets_at = w +ℤ l.duration; available = pos (n - 1) }

pass_stale :
    (w : ℤ) (l : DefaultLimiter) (n : ℕ)
    → n < 2 ^ 31
    → l.limit ≡ pos n
    → l.resets_at ≤ℤ w
    → IsInt64 (w +ℤ l.duration)
    → admit (pass w l) ≡ (min n 1, renewed w n l)
unfolding admit pass ◌-ℤ◌ wrap32
pass_stale w l n small e stale fits = ground (arith, wrap64_id (w +ℤ l.duration) fits)

-- A pass at `w` that finds the reset time reached opens a window of the limiter's duration. In that
-- window the first `n` passes, `n` the limit, get a slot each, and no more do.
pub admissions-window :
    (w : ℤ) (times : List ℤ) (l : DefaultLimiter) (n : ℕ)
    → n < 2 ^ 31
    → l.limit ≡ pos n
    → l.resets_at ≤ℤ w
    → IsInt64 (w +ℤ l.duration)
    → All (λ t. t <ℤ w +ℤ l.duration) times
    → (admissions (w ∷ times) l).0 ≡ min n (suc (length times))
unfolding admissions
admissions-window w times l n small e stale fits h =
    rw (pass_stale w l n small e stale fits)
      (omega (arith, admissions-min times (renewed w n l) (n - 1) (omega arith) refl h))

-- With a positive limit Lock returns after at most one sleep, provided that the clock, read again
-- after the sleep, has reached the reset time that the first pass saw.
pub lock_returns :
    (t t' : ℤ) (clock : List ℤ) (l : DefaultLimiter) (n : ℕ)
    → suc n < 2 ^ 31
    → l.limit ≡ pos (suc n)
    → l.resets_at ≤ℤ t'
    → ((lock (t ∷ t' ∷ clock) l).0 ≡ some t) ⊎ ((lock (t ∷ t' ∷ clock) l).0 ≡ some t')
unfolding lock
lock_returns t t' clock l n small e reached = ground arith

lock_stays :
    (clock : List ℤ) (l : DefaultLimiter)
    → l.limit ≤ℤ pos 0
    → l.available ≤ℤ pos 0
    → (lock clock l).0 ≡ none
unfolding lock
lock_stays [] l h k = refl
lock_stays (now ∷ clock) l h k =
    ground (
      arith,
      lock_stays clock l h k,
      lock_stays clock (refresh now l) (ground arith) (ground arith),
    )

-- A limiter that is made with a limit of zero or less never lets Lock return.
pub lock_without_slots :
    (limit duration : ℤ) (clock : List ℤ)
    → limit ≤ℤ pos 0
    → (lock clock (new_duration_limiter limit duration)).0 ≡ none
unfolding new_duration_limiter
lock_without_slots limit duration clock h = lock_stays clock _ h (omega arith)
