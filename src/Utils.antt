-- ===== src/Utils.antt =====
-- gateway/utils.go: `contains` over interface values.
pub mod Reflection
pub mod Exports
use sandwich_producer.Base.{
  ℕ, ℤ, pos, zero, suc, ◌<◌, ◌+◌, ◌≡◌, ◌↔◌, Bool, true, false, List, [], ◌∷◌, String, eqb_ℤ, str_eq,
  if◌then◌else◌, Bool-cases, eqb_ℤ_iff, inl, inr, length, arith, eq_iff,
}

-- An `interface{}`: a dynamic type and a value of it. Two are equal if both agree.
pub data Interface : Type 0 where
  int : ℤ → Interface
  status_code : ℤ → Interface
  text : String → Interface
  nil : Interface

unfoldable pub same : Interface → Interface → Bool
same (int a) (int b) = eqb_ℤ a b
same (status_code a) (status_code b) = eqb_ℤ a b
same (text s) (text t) = str_eq s t
same nil nil = true
same _ _ = false

-- `for _var := range vars`: with one variable, `range` yields the index, an int.
contains_from : ℕ → Interface → List Interface → Bool
contains_from i a [] = false
contains_from i a (_ ∷ vars) = if same (int (pos i)) a then true else contains_from (suc i) a vars

unfoldable pub contains : Interface → List Interface → Bool
unfolding contains_from same
contains a vars = contains_from 0 a vars

same_iff : (a b : Interface) → (same a b ≡ true) ↔ (a ≡ b)
unfolding same
same_iff (int a) (int b) = ground (arith, eqb_ℤ_iff a b)
same_iff (status_code a) (status_code b) = ground (arith, eqb_ℤ_iff a b)
same_iff (text s) (text t) = ground (arith, eq_iff s t)
same_iff nil nil = ground arith
same_iff a b = ground arith

contains_from_sound :
    (i : ℕ) (a : Interface) (vars : List Interface)
    → contains_from i a vars ≡ true
    → (k : ℕ) × (k < length vars) × (a ≡ int (pos (i + k)))
unfolding contains_from
contains_from_sound i a [] h = cc
contains_from_sound i a (v ∷ vars) h = elim (Bool-cases (same (int (pos i)) a)) [
  | inl hit ↦ (0, omega arith, ground (arith, (same_iff (int (pos i)) a).0 hit))
  | inr miss ↦
      let (k, lt, e) = contains_from_sound (suc i) a vars (ground arith) in
      (suc k, omega arith, ground arith)
]

contains_from_complete :
    (i : ℕ) (a : Interface) (vars : List Interface) (k : ℕ)
    → k < length vars
    → a ≡ int (pos (i + k))
    → contains_from i a vars ≡ true
unfolding contains_from
contains_from_complete i a [] k lt e = absurd (omega arith)
contains_from_complete i a (v ∷ vars) zero lt e = ground (arith, (same_iff (int (pos i)) a).1)
contains_from_complete i a (v ∷ vars) (suc k) lt e =
    ground (arith, contains_from_complete (suc i) a vars k)

-- `contains a vars` holds exactly when `a` is an `int` with a value from 0 up to the number of the
-- candidates: it compares `a` with their positions, and the candidates' values play no part.
pub contains_iff :
    (a : Interface) (vars : List Interface)
    → (contains a vars ≡ true) ↔ ((k : ℕ) × (k < length vars) × (a ≡ int (pos k)))
unfolding contains
contains_iff a vars = (
  λ h. let (k, lt, e) = contains_from_sound 0 a vars h in (k, lt, ground arith),
  λ t. contains_from_complete 0 a vars t.0 t.1 (ground arith),
)

-- A websocket status code is contained in no list of candidates, not even in one that names it.
pub contains-status_code : (c : ℤ) (vars : List Interface) → contains (status_code c) vars ≡ false
contains-status_code c vars = elim (Bool-cases (contains (status_code c) vars)) [
  | inl h ↦ let (k, lt, e) = (contains_iff (status_code c) vars).0 h in cc
  | inr h ↦ h
]
