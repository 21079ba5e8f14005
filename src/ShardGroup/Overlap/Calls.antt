-- ===== src/ShardGroup/Overlap/Calls.antt =====
-- gateway/manager.go: what overlapping calls of Scale have left, and what of it one step keeps.
use sandwich_producer.Base.{
  sym, ℤ, ℕ, ◌==◌, ◌≡◌, ◌≤◌, ◌⊎◌, refl, inr, List, [], ◌∷◌, Option, none, String, arith, GoError,
  All, System, total, length, get_elem?, int_key, if◌then◌else◌,
}
use mathlib.Core.Path.{subst}
use sandwich_producer.ShardGroup.{ShardGroup, Registry}
use sandwich_producer.ShardGroup.Rotation.{after_starts}
use sandwich_producer.ShardGroup.Overlap.{
  Scaling, Runs, ScalePc, living, called, spawned, returned, panicked,
}
use sandwich_producer.ShardGroup.Overlap.Places.{placed, Lived, Lived-bound, Keeps, Leaves, occurs}
use sandwich_producer.ShardGroup.Overlap.Turns.{Turned}

-- The call has made the group at an address.
abbrev pub made : ℕ → ScalePc → ℕ
made a (spawned b q) = if b == a then 1 else 0
made a (returned b q err) = if b == a then 1 else 0
made a _ = 0

-- The group of a call is in a list.
abbrev pub In : ℕ → Scaling → List (ℕ × Scaling) → Type 0
In a q [] = ⊥
In a q ((b, p) ∷ order) = ((b ≡ a) × (p ≡ q)) ⊎ In a q order

abbrev pub is_over : ScalePc → ℕ
is_over (returned b q err) = 1
is_over _ = 0

module _ (token : String) (runs : Runs) (replies : ℤ → Option GoError) where
  -- A call before its turn has its group to itself, which nothing has stopped, and a call after it has
  -- returned no error.
  abbrev pub PcOk : List ShardGroup → List (ℕ × Scaling) → ScalePc → Type 0
  PcOk groups order living = Unit
  PcOk groups order (called q) = Unit
  PcOk groups order (spawned a q) =
      Lived token runs replies 0 q (get_elem? groups a) × (occurs a order ≡ 0)
  PcOk groups order (returned a q err) = (err ≡ none) × In a q order
  PcOk groups order (panicked p) = ⊥

  -- What overlapping calls have left of a manager that was new: `order` has the groups that have had
  -- their turns, the latest first.
  pub record Overlapped (s : System Registry ScalePc) : Type 0 where
    pub order : List (ℕ × Scaling)
    pub registry : s.shared ≡ after_starts (length order) s.shared.groups (placed order)
    pub leaves : Leaves token runs replies s.shared.groups (length order) order
    pub once : (a : ℕ) → occurs a order ≤ 1
    pub pcs : All (PcOk s.shared.groups order) s.pcs
    pub unique : (a : ℕ) → total (made a) s.pcs ≤ 1
    pub bounded : (a : ℕ) → length s.shared.groups ≤ a → total (made a) s.pcs ≡ 0
    pub over : total is_over s.pcs ≡ length order

  pub occurs-bound :
      (groups : List ShardGroup) (n a : ℕ) (order : List (ℕ × Scaling))
      → length groups ≤ a
      → Leaves token runs replies groups n order
      → occurs a order ≡ 0
  occurs-bound groups n a [] le h = refl
  occurs-bound groups n a ((b, q) ∷ order) le h =
      ground (
        arith,
        Lived-bound token runs replies groups b _ q h.0,
        occurs-bound groups n a order le h.1,
      )

  -- Another goroutine makes a group, or runs.
  pub PcOk-kept :
      (groups groups' : List ShardGroup) (order : List (ℕ × Scaling))
      → Keeps token runs replies groups groups'
      → (pc : ScalePc) → PcOk groups order pc
      → PcOk groups' order pc
  PcOk-kept groups groups' order f living h = tt
  PcOk-kept groups groups' order f (called q) h = tt
  PcOk-kept groups groups' order f (spawned a q) h = (f a 0 q h.0, h.1)
  PcOk-kept groups groups' order f (returned a q err) h = h
  PcOk-kept groups groups' order f (panicked p) h = h

  -- Another call has its turn.
  pub PcOk-turned :
      {groups : List ShardGroup} {order : List (ℕ × Scaling)} {a : ℕ} {q : Scaling} {g : ShardGroup}
      (u : Turned token runs replies groups order a q g) (pc : ScalePc)
      → made a pc ≡ 0
      → PcOk groups order pc
      → PcOk u.groups' ((a, q) ∷ order) pc
  PcOk-turned u living e h = tt
  PcOk-turned u (called q) e h = tt
  PcOk-turned u (spawned c q) e h =
      (subst (Lived token runs replies 0 q) (sym (u.others c h.1)) h.0, ground (arith, h.1, e))
  PcOk-turned u (returned c q err) e h = (h.0, inr h.1)
  PcOk-turned u (panicked p) e h = h

pub is_over-le : (pcs : List ScalePc) → total is_over pcs ≤ length pcs
is_over-le [] = omega arith
is_over-le (living ∷ pcs) = omega (arith, is_over-le pcs)
is_over-le (called q ∷ pcs) = omega (arith, is_over-le pcs)
is_over-le (spawned b q ∷ pcs) = omega (arith, is_over-le pcs)
is_over-le (returned b q err ∷ pcs) = omega (arith, is_over-le pcs)
is_over-le (panicked p ∷ pcs) = omega (arith, is_over-le pcs)
