-- ===== src/Identify/Decimal.antt =====
-- The `%d` of fmt.Sprintf, as gateway/manager.go uses it in the name of a bucket.
use Prim.Native.Char.{Char, code}
use Prim.Native.String.{[], ◌∷◌, ◌++◌}
use sandwich_producer.Base.{
  ℕ, zero, suc, ℤ, pos, negsuc, ◌+◌, ◌-◌, ◌*◌, ◌/◌, ◌%◌, ◌^◌, ◌<◌, ◌≡◌, refl, sym, ap, ◌∙◌, String,
  ltb, Bool, true, ◌&&◌, ◌==◌, ◌↔◌, if◌then◌else◌, arith, Bool-cases, inl, inr,
}

unfoldable pub digit : ℕ → Char
digit n =
    if n == 0
    then "0"
    else if n == 1
    then "1"
    else if n == 2
    then "2"
    else if n == 3
    then "3"
    else if n == 4
    then "4"
    else if n == 5
    then "5"
    else if n == 6
    then "6"
    else if n == 7
    then "7"
    else if n == 8
    then "8"
    else "9"

-- The decimal digits of `n` before a text. The first argument bounds their number.
unfoldable pub digits_onto : ℕ → ℕ → String → String
unfolding digit
digits_onto zero n s = s
digits_onto (suc fuel) n s =
    let t : String = digit (n % 10) ∷ s in
    let more = digits_onto fuel (n / 10) t in if ltb n 10 then t else more

-- An int has at most 19 digits.
unfoldable pub decimal : ℤ → String
unfolding digits_onto
decimal (pos n) = digits_onto 20 n ""
decimal (negsuc n) = "-" ++ digits_onto 20 (suc n) ""

-- The number that a text of digits continues.
read_onto : ℕ → String → ℕ
read_onto n [] = n
read_onto n (c ∷ s) = read_onto (10 * n + (code c - 48)) s

-- The test holds of every number below `n`.
all_below : ℕ → (ℕ → Bool) → Bool
all_below zero test = true
all_below (suc n) test = test n && all_below n test

all_below_sound :
    (n : ℕ) (test : ℕ → Bool) (k : ℕ) → all_below n test ≡ true → k < n → test k ≡ true
unfolding all_below
all_below_sound zero test k h lt = absurd (omega arith)
all_below_sound (suc n) test k h lt = elim (Bool-cases (k == n)) [
  | inl last ↦ rw (is_last last) (ground arith)
  | inr earlier ↦ all_below_sound n test k (ground arith) (ground arith)
]
  where
    is_last : (k == n) ≡ true → k ≡ n
    is_last e = ground arith

code-digit : (d : ℕ) → d < 10 → code (digit d) - 48 ≡ d
unfolding all_below digit
code-digit d h = ground (arith, all_below_sound 10 (λ k. (code (digit k) - 48) == k) d refl h)

continued : (n : ℕ) → 10 * (n / 10) + (code (digit (n % 10)) - 48) ≡ n
continued n = omega (arith, code-digit (n % 10) (omega arith))

one_digit : (n : ℕ) → n < 10 → 10 * 0 + (code (digit (n % 10)) - 48) ≡ n
one_digit n h = omega (arith, code-digit (n % 10) (omega arith))

read_onto-digits_onto :
    (fuel n : ℕ) (s : String) → n < 10 ^ fuel → read_onto 0 (digits_onto fuel n s) ≡ read_onto n s
unfolding read_onto digits_onto
read_onto-digits_onto zero n s h = ap (λ m. read_onto m s) (omega arith)
read_onto-digits_onto (suc fuel) n s h = elim (Bool-cases (ltb n 10)) [
  | inl small ↦ rw small (ap (λ m. read_onto m s) (one_digit n (ground arith)))
  | inr large ↦ rw large (
      read_onto-digits_onto fuel (n / 10) (digit (n % 10) ∷ s) (grind arith)
      ∙ ap (λ m. read_onto m s) (continued n))
]

decimal_value : (n : ℕ) → n < 10 ^ 20 → read_onto 0 (decimal (pos n)) ≡ n
unfolding decimal read_onto
decimal_value n h = read_onto-digits_onto 20 n "" h

pub decimal_iff :
    (a b : ℕ) → a < 10 ^ 20 → b < 10 ^ 20 → (decimal (pos a) ≡ decimal (pos b)) ↔ (a ≡ b)
decimal_iff a b ha hb = (
  λ e. sym (decimal_value a ha) ∙ ap (read_onto 0) e ∙ decimal_value b hb,
  λ e. ap (λ n. decimal (pos n)) e,
)
