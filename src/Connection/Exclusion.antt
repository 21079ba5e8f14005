-- ===== src/Connection/Exclusion.antt =====
-- gateway/connection.go: what the mutexes exclude, and what they do not.
use sandwich_producer.Base.{
  Respects, IsHeldOnce, Steps-IsHeldOnce, IsHeldOnce-two, ℕ, zero, suc, ℤ, ◌+◌, ◌≤◌, ◌≡◌, refl,
  List, ◌∷◌, ◌++◌, arith, System, Step, pick, total,
}
use sandwich_producer.Connection.{Mutexes, new_connection}
use sandwich_producer.Connection.Steps.{
  Pc, outside, locked_write, writing, written, locked_read, reading, read, closing, ConnectionMove,
  locks_wmux, starts_write, ends_write, unlocks_wmux, locks_rmux, starts_read, ends_read,
  unlocks_rmux, starts_close, ends_close, all_outside, Reach, runs,
}

-- Is the goroutine in Write; is it in Read.
abbrev pub in_write : Pc → ℕ
in_write (locked_write _) = 1
in_write (writing _) = 1
in_write written = 1
in_write _ = 0

abbrev pub in_read : Pc → ℕ
in_read locked_read = 1
in_read reading = 1
in_read read = 1
in_read _ = 0

-- An unlock follows a lock: the goroutine's mutex is locked.
ConnectionMove-Respects :
    (c c' : Mutexes) (p p' : Pc)
    → ConnectionMove c p c' p'
    → Respects ConnectionMove (λ m. m.wmux) in_write c p c' p'
      × Respects ConnectionMove (λ m. m.rmux) in_read c p c' p'
ConnectionMove-Respects c c' p p' (locks_wmux e) = (λ h k. ground arith, λ h k. ground arith)
ConnectionMove-Respects c c' p p' starts_write = (λ h k. ground arith, λ h k. ground arith)
ConnectionMove-Respects c c' p p' ends_write = (λ h k. ground arith, λ h k. ground arith)
ConnectionMove-Respects c c' p p' unlocks_wmux = (λ h k. ground arith, λ h k. ground arith)
ConnectionMove-Respects c c' p p' (locks_rmux e) = (λ h k. ground arith, λ h k. ground arith)
ConnectionMove-Respects c c' p p' starts_read = (λ h k. ground arith, λ h k. ground arith)
ConnectionMove-Respects c c' p p' ends_read = (λ h k. ground arith, λ h k. ground arith)
ConnectionMove-Respects c c' p p' unlocks_rmux = (λ h k. ground arith, λ h k. ground arith)
ConnectionMove-Respects c c' p p' starts_close = (λ h k. ground arith, λ h k. ground arith)
ConnectionMove-Respects c c' p p' ends_close = (λ h k. ground arith, λ h k. ground arith)

total-all_outside : (w : Pc → ℕ) (k : ℕ) → w outside ≡ 0 → total w (all_outside k) ≡ 0
total-all_outside w zero h = refl
total-all_outside w (suc k) h = omega (arith, total-all_outside w k h)

module _ {k : ℕ} {s : System Mutexes Pc} (r : Reach k s) where
  Reach-write : IsHeldOnce ConnectionMove (λ m. m.wmux) in_write s
  unfolding new_connection
  Reach-write = elim r [
    | runs steps ↦
        Steps-IsHeldOnce ConnectionMove (λ m. m.wmux) in_write
          (λ c c' p p' mv. (ConnectionMove-Respects c c' p p' mv).0) steps
          (record { holders = total-all_outside in_write k refl; once = omega arith })
  ]

  Reach-read : IsHeldOnce ConnectionMove (λ m. m.rmux) in_read s
  unfolding new_connection
  Reach-read = elim r [
    | runs steps ↦
        Steps-IsHeldOnce ConnectionMove (λ m. m.rmux) in_read
          (λ c c' p p' mv. (ConnectionMove-Respects c c' p p' mv).1) steps
          (record { holders = total-all_outside in_read k refl; once = omega arith })
  ]

  -- In every interleaving at most one goroutine is in Write, and at most one is in Read.
  pub one_in_write :
      (before between after : List Pc) (p q : Pc)
      → s.pcs ≡ before ++ p ∷ between ++ q ∷ after
      → (in_write p + in_write q ≤ 1) × (in_read p + in_read q ≤ 1)
  one_in_write before between after p q e = (
    IsHeldOnce-two ConnectionMove (λ m. m.wmux) in_write Reach-write before between after p q e,
    IsHeldOnce-two ConnectionMove (λ m. m.rmux) in_read Reach-read before between after p q e,
  )

-- Close and CloseWithCode take no mutex: while a goroutine is writing a message, another can start to
-- write a close message on the same websocket.
pub close_overlaps_write :
    (s : System Mutexes Pc) (before between after : List Pc) (d : List ℕ) (code : ℤ)
    → s.pcs ≡ before ++ writing d ∷ between ++ outside ∷ after
    → (t : System Mutexes Pc) × Step ConnectionMove s t
      × (t.pcs ≡ before ++ writing d ∷ between ++ closing code ∷ after)
close_overlaps_write s before between after d code e = (
  record s { pcs = before ++ writing d ∷ between ++ closing code ∷ after },
  pick (before ++ writing d ∷ between) after e starts_close refl,
  refl,
)
