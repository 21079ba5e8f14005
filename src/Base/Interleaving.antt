-- ===== src/Base/Interleaving.antt =====
-- Goroutines over one shared value, interleaved in any order: a state of the shared value, a list of
-- places in the code, and steps in which one goroutine moves.
use Prim.Native.Nat.{ℕ, ◌+◌}
use mathlib.Core.Path.{◌≡◌, sym, subst}
use mathlib.Core.List.{List, ◌∷◌, ◌++◌, []}
use native.Mathlib.Omega.{arith}
use sandwich_producer.Base.Lists.{length, length-append, All, All-append}

pub record System (C P : Type 0) : Type 0 where
  pub shared : C
  pub pcs : List P

module _ {C P : Type 0} (Move : C → P → C → P → Type 0) where
  -- The goroutine at `p`, between those of `before` and of `after`, moves.
  pub data Step (s t : System C P) : Type 0 where
    pick :
        (before after : List P) {p p' : P}
        → s.pcs ≡ before ++ p ∷ after
        → Move s.shared p t.shared p'
        → t.pcs ≡ before ++ p' ∷ after
        → Step s t

  pub data Steps (s : System C P) : System C P → Type 0 where
    here : Steps s s
    later : {t u : System C P} → Steps s t → Step t u → Steps s u

-- A weight summed over the goroutines.
abbrev pub total {ℓ} : {P : Type ℓ} → (P → ℕ) → List P → ℕ
total w [] = 0
total w (p ∷ ps) = w p + total w ps

module _ {ℓ} {P : Type ℓ} where
  pub total-append : (w : P → ℕ) (ps qs : List P) → total w (ps ++ qs) ≡ total w ps + total w qs
  total-append w [] qs = omega arith
  total-append w (p ∷ ps) qs = omega (arith, total-append w ps qs)

  -- The weight of one goroutine among the others.
  pub total-pick :
      (w : P → ℕ) (ps before after : List P) (p : P)
      → ps ≡ before ++ p ∷ after
      → total w ps ≡ total w before + total w after + w p
  total-pick w ps before after p e = rw e (omega (arith, total-append w before (p ∷ after)))

  pub length-pick :
      (ps before after : List P) (p : P)
      → ps ≡ before ++ p ∷ after
      → length ps ≡ length before + length after + 1
  length-pick ps before after p e = rw e (omega (arith, length-append before (p ∷ after)))

  -- A goroutine of weight in a list without any.
  pub total-zero : (w : P → ℕ) (ps : List P) → total w ps ≡ 0 → All (λ p. w p ≡ 0) ps
  total-zero w [] e = tt
  total-zero w (p ∷ ps) e = (omega (arith, e), total-zero w ps (omega (arith, e)))

  -- What holds of every goroutine, taken apart at one of them.
  pub All-pick {κ} :
      (Q : P → Type κ) (ps before after : List P) (p : P)
      → ps ≡ before ++ p ∷ after
      → All Q ps
      → All Q before × Q p × All Q after
  All-pick Q ps before after p e h = split before (subst (All Q) e h)
    where
      split : (xs : List P) → All Q (xs ++ p ∷ after) → All Q xs × Q p × All Q after
      split [] h = (tt, h.0, h.1)
      split (x ∷ xs) h = let (front, at, rest) = split xs h.1 in ((h.0, front), at, rest)

  -- And put together again.
  pub pick-All {κ} :
      (Q : P → Type κ) (ps before after : List P) (p : P)
      → ps ≡ before ++ p ∷ after
      → All Q before
      → Q p
      → All Q after
      → All Q ps
  pick-All Q ps before after p e front at rest =
      subst (All Q) (sym e) (All-append Q before (p ∷ after) front (at, rest))
