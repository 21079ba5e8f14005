-- ===== src/Base/Maps.antt =====
-- Go's maps as association lists: reading, writing and `delete`. An instance gives the keys' `==`.
use Prim.Native.String.{String}
use mathlib.Core.Path.{◌≡◌, refl}
use mathlib.Core.Logic.{◌↔◌, ◌≢◌, inl, inr}
use mathlib.Core.Bool.{Bool, true, false}
use mathlib.Core.List.{List, [], ◌∷◌}
use mathlib.Core.Option.{Option, none, some}
use native.Mathlib.Omega.{arith}
use text.Mathlib.Text.{◌==◌ as str_eq}
use text.Mathlib.TextEquality.{eq_iff}
use sandwich_producer.Base.Tests.{if◌then◌else◌, Bool-cases}
use sandwich_producer.Base.Int.{ℤ, eqb_ℤ, eqb_ℤ_iff}

pub record Key {ℓ} (K : Type ℓ) : Type ℓ where
  pub same_key : K → K → Bool
  pub same_key_iff : (a b : K) → (same_key a b ≡ true) ↔ (a ≡ b)

instance abbrev pub int_key : Key ℤ
int_key = record { same_key = eqb_ℤ; same_key_iff = eqb_ℤ_iff }

instance abbrev pub string_key : Key String
string_key = record { same_key = str_eq; same_key_iff = eq_iff }

module _ {ℓ} {K : Type ℓ} ⦃e : Key K⦄ where
  pub same_key_refl : (k : K) → e.same_key k k ≡ true
  same_key_refl k = (e.same_key_iff k k).1 refl

  pub same_key-ne : (j k : K) → j ≢ k → e.same_key j k ≡ false
  same_key-ne j k h = elim (Bool-cases (e.same_key j k)) [
    | inl same ↦ absurd (h ((e.same_key_iff j k).0 same))
    | inr other ↦ other
  ]

module _ {ℓ κ} {K : Type ℓ} ⦃e : Key K⦄ {V : Type κ} where
  -- `v, ok := m[k]`
  unfoldable pub get : K → List (K × V) → Option V
  get k [] = none
  get k ((j, v) ∷ m) = if e.same_key j k then some v else get k m

  -- `m[k] = v`
  unfoldable pub put : K → V → List (K × V) → List (K × V)
  put k v [] = (k, v) ∷ []
  put k v ((j, w) ∷ m) = if e.same_key j k then (k, v) ∷ m else (j, w) ∷ put k v m

  -- `delete(m, k)`
  unfoldable pub delete : K → List (K × V) → List (K × V)
  delete k [] = []
  delete k ((j, w) ∷ m) = let rest = delete k m in if e.same_key j k then rest else (j, w) ∷ rest

  pub get-put :
      (k j : K) (v : V) (m : List (K × V))
      → get j (put k v m) ≡ (if e.same_key k j then some v else get j m)
  unfolding get put
  get-put k j v [] = refl
  get-put k j v ((i, w) ∷ m) =
      ground (arith, e.same_key_iff k j, e.same_key_iff i k, e.same_key_iff i j, get-put k j v m)

  pub get-put_self : (k : K) (v : V) (m : List (K × V)) → get k (put k v m) ≡ some v
  get-put_self k v m = rw (get-put k k v m, same_key_refl k)

  pub get-put_ne : (k j : K) (v : V) (m : List (K × V)) → k ≢ j → get j (put k v m) ≡ get j m
  get-put_ne k j v m h = rw (get-put k j v m, same_key-ne k j h)

  pub get-delete :
      (k j : K) (m : List (K × V)) → get j (delete k m) ≡ (if e.same_key k j then none else get j m)
  unfolding get delete
  get-delete k j [] = ground arith
  get-delete k j ((i, w) ∷ m) =
      ground (arith, e.same_key_iff k j, e.same_key_iff i k, e.same_key_iff i j, get-delete k j m)
