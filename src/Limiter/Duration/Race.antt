-- ===== src/Limiter/Duration/Race.antt =====
-- gateway/limiter.go, DefaultLimiter.Lock at its atomic operations, with several goroutines.
use sandwich_producer.Base.{
  ℤ, pos, negsuc, ◌≡◌, refl, ◌-ℤ◌, wrap32, ◌≤ℤ◌, ◌<ℤ◌, List, [], ◌∷◌, arith, System, Step, pick,
  Steps, here, later,
}
use sandwich_producer.Limiter.Duration.{DefaultLimiter, store_resets_at, store_available, take_slot}

-- Where a goroutine stands in `Lock`: before the clock is read, with the time it read, between the
-- two stores, before and after the test for a slot, and with a slot.
pub data LockPc : Type 0 where
  begin : LockPc
  clocked : ℤ → LockPc
  resetting : LockPc
  testing : LockPc
  passing : LockPc
  locked : LockPc

-- The clock is read as the environment has it, and a sleep may last any time. A goroutine that has
-- got a slot may call Lock again.
pub data LockMove (l : DefaultLimiter) : LockPc → DefaultLimiter → LockPc → Type 0 where
  reads_clock : {now : ℤ} → LockMove l begin l (clocked now)
  renews :
      {now : ℤ} → l.resets_at ≤ℤ now → LockMove l (clocked now) (store_resets_at now l) resetting
  keeps : {now : ℤ} → now <ℤ l.resets_at → LockMove l (clocked now) l testing
  fills : LockMove l resetting (store_available l) testing
  retries : l.available ≤ℤ pos 0 → LockMove l testing l begin
  admits : pos 0 <ℤ l.available → LockMove l testing l passing
  takes : LockMove l passing (take_slot l) locked
  leaves : LockMove l locked l begin

take_slot_twice :
    (l : DefaultLimiter) → l.available ≡ pos 1 → (take_slot (take_slot l)).available ≡ negsuc 0
unfolding take_slot ◌-ℤ◌ wrap32
take_slot_twice l e = ground arith

-- The test and the decrement of `Lock` are not one step: two goroutines that test the last slot of a
-- window both get it, which leaves -1 slots.
last_slot_race :
    (l : DefaultLimiter) (others : List LockPc)
    → l.available ≡ pos 1
    → (s : System DefaultLimiter LockPc) × Steps LockMove
        (record { shared = l; pcs = testing ∷ testing ∷ others })
        s
      × (s.pcs ≡ locked ∷ locked ∷ others)
      × (s.shared.resets_at ≡ l.resets_at)
      × (s.shared.available ≡ negsuc 0)
unfolding take_slot
last_slot_race l others e = (
  record { shared = take_slot (take_slot l); pcs = locked ∷ locked ∷ others },
  later (later (later (later here first) second) third) fourth,
  refl,
  refl,
  take_slot_twice l e,
)
  where
    places : DefaultLimiter → LockPc → LockPc → System DefaultLimiter LockPc
    places m p q = record { shared = m; pcs = p ∷ q ∷ others }

    first : Step LockMove (places l testing testing) (places l passing testing)
    first = pick [] (testing ∷ others) refl (admits (ground arith)) refl

    second : Step LockMove (places l passing testing) (places l passing passing)
    second = pick (passing ∷ []) others refl (admits (ground arith)) refl

    third : Step LockMove (places l passing passing) (places (take_slot l) locked passing)
    third = pick [] (passing ∷ others) refl takes refl

    fourth :
        Step LockMove
          (places (take_slot l) locked passing)
          (places (take_slot (take_slot l)) locked locked)
    fourth = pick (locked ∷ []) others refl takes refl
