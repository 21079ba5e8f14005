-- ===== src/Examples/Overdrafts.antt =====
-- gateway/limiter.go, DefaultLimiter.Lock with two goroutines and one slot.
use sandwich_producer.Base.{
  ℤ, pos, negsuc, ◌≤◌, refl, [], ◌∷◌, arith, System, Steps, pick, here, later, pos_part, neg_part,
  wrap64, wrap32, ◌+ℤ◌, ◌-ℤ◌,
}
use sandwich_producer.Limiter.Duration.{
  DefaultLimiter, new_duration_limiter, store_resets_at, store_available, take_slot,
}
use sandwich_producer.Limiter.Duration.Race.{
  LockPc, begin, clocked, resetting, testing, passing, locked, LockMove, reads_clock, renews, keeps,
  fills, admits, takes,
}
use sandwich_producer.Limiter.Duration.Overdraft.{all_begin, lock_overdraft}

abbrev Places : DefaultLimiter → LockPc → LockPc → System DefaultLimiter LockPc
Places l p q = record { shared = l; pcs = p ∷ q ∷ [] }

-- The limiter with a time and a number of slots.
abbrev at : ℤ → ℤ → DefaultLimiter
at resets_at available = record {
  limit = pos 1;
  duration = pos 100;
  resets_at = resets_at;
  available = available;
}

left :
    (l l' : DefaultLimiter) (p p' q : LockPc) {s : System DefaultLimiter LockPc}
    → LockMove l p l' p'
    → Steps LockMove s (Places l p q)
    → Steps LockMove s (Places l' p' q)
left l l' p p' q mv r = later r (pick [] (q ∷ []) refl mv refl)

right :
    (l l' : DefaultLimiter) (p q q' : LockPc) {s : System DefaultLimiter LockPc}
    → LockMove l q l' q'
    → Steps LockMove s (Places l p q)
    → Steps LockMove s (Places l' p q')
right l l' p q q' mv r = later r (pick (p ∷ []) [] refl mv refl)

-- Both goroutines see the one slot before either takes it.
both_locked :
    Steps LockMove
      (record { shared = new_duration_limiter (pos 1) (pos 100); pcs = all_begin 2 })
      (Places (at (pos 109) (negsuc 0)) locked locked)
unfolding new_duration_limiter store_resets_at store_available take_slot wrap64 wrap32 ◌+ℤ◌ ◌-ℤ◌
both_locked = right (at (pos 109) (pos 0)) _ _ passing _ takes (
    left (at (pos 109) (pos 1)) (at (pos 109) (pos 0)) passing _ _ takes (
      right _ _ _ testing _ (admits (omega arith)) (
        left _ _ testing _ _ (admits (omega arith)) (
          right _ _ _ (clocked (pos 10)) _ (keeps (omega arith)) (
            right _ _ _ begin _ reads_clock (
              left (at (pos 109) (pos 0)) (at (pos 109) (pos 1)) resetting _ _ fills (
                left (at (pos 0) (pos 0)) (at (pos 109) (pos 0)) (clocked (pos 9)) _ _
                  (renews (omega arith)) (left _ _ begin _ _ reads_clock here))))))))

lock_overdraft_example : (neg_part (negsuc 0) ≤ 1) × (pos_part (negsuc 0) ≤ 1)
lock_overdraft_example =
    lock_overdraft 1 1 (pos 100) (omega arith) (omega arith) (omega arith) both_locked
