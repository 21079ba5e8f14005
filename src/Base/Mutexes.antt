-- ===== src/Base/Mutexes.antt =====
-- A mutex among interleaved goroutines: a number of the shared value, 1 while it is locked.
use Prim.Native.Nat.{ℕ, ◌+◌, ◌≤◌}
use mathlib.Core.Path.{◌≡◌, ap}
use mathlib.Core.List.{List, ◌∷◌, ◌++◌}
use native.Mathlib.Omega.{arith}
use sandwich_producer.Base.Interleaving.{
  System, Step, pick, Steps, here, later, total, total-append, total-pick,
}

-- The two places of a list of goroutines.
total-two {ℓ} :
    {P : Type ℓ} (w : P → ℕ) (ps before between after : List P) (p q : P)
    → ps ≡ before ++ p ∷ between ++ q ∷ after
    → w p + w q ≤ total w ps
total-two w ps before between after p q e = omega (
  arith,
  ap (total w) e,
  total-append w (before ++ p ∷ between) (q ∷ after),
  total-append w before (p ∷ between),
)

module _ {C P : Type 0} (Move : C → P → C → P → Type 0) (lock : C → ℕ) (holds : P → ℕ) where
  -- What a move keeps: a goroutine that holds the mutex has locked it, and it is locked once.
  abbrev pub Respects : C → P → C → P → Type 0
  Respects c p c' p' =
      holds p ≤ lock c → lock c ≤ 1 → (lock c' + holds p ≡ lock c + holds p') × (lock c' ≤ 1)

  pub record IsHeldOnce (s : System C P) : Type 0 where
    pub holders : total holds s.pcs ≡ lock s.shared
    pub once : lock s.shared ≤ 1

  module _ (respects : (c c' : C) (p p' : P) → Move c p c' p' → Respects c p c' p') where
    Step-IsHeldOnce : {s t : System C P} → Step Move s t → IsHeldOnce s → IsHeldOnce t
    Step-IsHeldOnce {s} {t} (pick before after {p} {p'} e mv e') v =
        let was = total-pick holds s.pcs before after p e in
        let is_now = total-pick holds t.pcs before after p' e' in
        let held : holds p ≤ lock s.shared = omega (arith, v.holders, was) in
        let m = respects _ _ p p' mv held v.once in
        record { holders = omega (arith, v.holders, was, is_now, m.0); once = m.1 }

    pub Steps-IsHeldOnce : {s t : System C P} → Steps Move s t → IsHeldOnce s → IsHeldOnce t
    Steps-IsHeldOnce here v = v
    Steps-IsHeldOnce (later r st) v = Step-IsHeldOnce st (Steps-IsHeldOnce r v)

  -- Of two goroutines, at most one holds it.
  pub IsHeldOnce-two :
      {s : System C P}
      → IsHeldOnce s
      → (before between after : List P) (p q : P) → s.pcs ≡ before ++ p ∷ between ++ q ∷ after
      → holds p + holds q ≤ 1
  IsHeldOnce-two {s} v before between after p q e =
      omega (arith, v.holders, v.once, total-two holds s.pcs before between after p q e)
