-- ===== src/Base/Results.antt =====
-- What a Go call comes to: it returns, or it panics. An `error` result is an `Option GoError`
-- beside the other results, as in the source.
use Prim.Native.Nat.{ℕ}
use mathlib.Core.Path.{◌≡◌, refl}
use mathlib.Core.Logic.{◌⊎◌, inl, inr}

-- The error values of the program (gateway/manager.go, gateway/shard.go, gateway/bucket_store.go,
-- client/client.go), and those that a library returns, which the program only passes on.
pub data GoError : Type 0 where
  no_token_provided : GoError
  invalid_token_passed : GoError
  not_enough_sessions : GoError
  reconnect_please : GoError
  no_such_bucket : GoError
  invalid_token : GoError
  external : ℕ → GoError

-- The run-time panics that the modelled code can reach, and the `panic(err)` of main.
pub data Panic : Type 0 where
  nil_dereference : Panic
  nil_map_write : Panic
  divide_by_zero : Panic
  bad_channel_size : Panic
  bad_ticker_interval : Panic
  bad_reflection : Panic
  send_on_closed : Panic
  close_of_closed : Panic
  raised : GoError → Panic

pub data Outcome {ℓ} (A : Type ℓ) : Type ℓ where
  ret : A → Outcome A
  panic : Panic → Outcome A

infixl 5 ◌>>=◌
abbrev pub ◌>>=◌ {ℓ κ} : {A : Type ℓ} {B : Type κ} → Outcome A → (A → Outcome B) → Outcome B
ret a >>= f = f a
panic p >>= f = panic p

-- Inversion of a bind that returns.
pub >>=-eq-ret {ℓ κ} :
    {A : Type ℓ} {B : Type κ} (m : Outcome A) (f : A → Outcome B) {b : B}
    → (m >>= f) ≡ ret b
    → (a : A) × (m ≡ ret a) × (f a ≡ ret b)
>>=-eq-ret (ret a) f h = (a, refl, h)
>>=-eq-ret (panic p) f h = cc

-- What holds of a call that returns; a panic ends the program, so nothing is asked of it.
abbrev pub Ensures {ℓ κ} : {A : Type ℓ} → (A → Type κ) → Outcome A → Type κ
Ensures P (ret a) = P a
Ensures P (panic p) = Unit

pub Ensures->>= {ℓ κ μ} :
    {A : Type ℓ} {B : Type κ} (P : A → Type μ) (Q : B → Type μ) (m : Outcome A) (f : A → Outcome B)
    → Ensures P m
    → ((a : A) → P a → Ensures Q (f a))
    → Ensures Q (m >>= f)
Ensures->>= P Q (ret a) f h k = k a h
Ensures->>= P Q (panic p) f h k = tt

-- A call that returns, and what holds of what it returns.
abbrev pub Returns {ℓ} : {A : Type ℓ} → (A → Type 0) → Outcome A → Type 0
Returns P (ret a) = P a
Returns P (panic p) = ⊥

pub Returns->>= {ℓ κ} :
    {A : Type ℓ} {B : Type κ} (P : A → Type 0) (Q : B → Type 0) (m : Outcome A) (f : A → Outcome B)
    → Returns P m
    → ((a : A) → P a → Returns Q (f a))
    → Returns Q (m >>= f)
Returns->>= P Q (ret a) f h k = k a h
Returns->>= P Q (panic p) f h k = absurd h

pub Returns-ret {ℓ} :
    {A : Type ℓ} (P : A → Type 0) (m : Outcome A) → Returns P m → (a : A) × (m ≡ ret a) × P a
Returns-ret P (ret a) h = (a, refl, h)
Returns-ret P (panic p) h = absurd h

pub Outcome-cases {ℓ} :
    {A : Type ℓ} (m : Outcome A) → ((a : A) × (m ≡ ret a)) ⊎ ((p : Panic) × (m ≡ panic p))
Outcome-cases (ret a) = inl (a, refl)
Outcome-cases (panic p) = inr (p, refl)

pub Ensures-trivial {ℓ} : {A : Type ℓ} (m : Outcome A) → Ensures (λ _. Unit {0}) m
Ensures-trivial (ret a) = tt
Ensures-trivial (panic p) = tt

pub Ensures-mono {ℓ κ μ} :
    {A : Type ℓ} (P : A → Type κ) (Q : A → Type μ) (m : Outcome A)
    → ((a : A) → P a → Q a)
    → Ensures P m
    → Ensures Q m
Ensures-mono P Q (ret a) k h = k a h
Ensures-mono P Q (panic p) k h = tt

pub Returns-mono {ℓ} :
    {A : Type ℓ} (P : A → Type 0) (Q : A → Type 0) (m : Outcome A)
    → ((a : A) → P a → Q a)
    → Returns P m
    → Returns Q m
Returns-mono P Q (ret a) k h = k a h
Returns-mono P Q (panic p) k h = absurd h

-- What a call returns, once it is known not to panic.
pub Returns-Ensures {ℓ} :
    {A : Type ℓ} (P : A → Type 0) (Q : A → Type 0) (m : Outcome A)
    → Returns P m
    → Ensures Q m
    → Returns Q m
Returns-Ensures P Q (ret a) h k = k
Returns-Ensures P Q (panic p) h k = h

-- What holds of a call that returns, where `ok` is asked of the panic of one that panics: with `Unit`
-- it is `Ensures`, with `⊥` it is `Returns`.
abbrev pub Checks {ℓ} : {A : Type ℓ} → (Panic → Type 0) → (A → Type 0) → Outcome A → Type 0
Checks ok P (ret a) = P a
Checks ok P (panic p) = ok p

pub Checks->>= {ℓ κ} :
    {A : Type ℓ} {B : Type κ} (ok : Panic → Type 0) (P : A → Type 0) (Q : B → Type 0)
    (m : Outcome A) (f : A → Outcome B)
    → Checks ok P m
    → ((a : A) → P a → Checks ok Q (f a))
    → Checks ok Q (m >>= f)
Checks->>= ok P Q (ret a) f h k = k a h
Checks->>= ok P Q (panic p) f h k = h

-- The same, where what follows knows the call.
pub Checks->>=-ret {ℓ κ} :
    {A : Type ℓ} {B : Type κ} (ok : Panic → Type 0) (P : A → Type 0) (Q : B → Type 0)
    (m : Outcome A) (f : A → Outcome B)
    → Checks ok P m
    → ((a : A) → m ≡ ret a → P a → Checks ok Q (f a))
    → Checks ok Q (m >>= f)
Checks->>=-ret ok P Q (ret a) f h k = k a refl h
Checks->>=-ret ok P Q (panic p) f h k = h

pub Checks-Ensures {ℓ} :
    {A : Type ℓ} (P : A → Type 0) (m : Outcome A) → Checks (λ _. Unit) P m → Ensures P m
Checks-Ensures P (ret a) h = h
Checks-Ensures P (panic p) h = tt

pub Ensures-Checks {ℓ} :
    {A : Type ℓ} (P : A → Type 0) (m : Outcome A) → Ensures P m → Checks (λ _. Unit) P m
Ensures-Checks P (ret a) h = h
Ensures-Checks P (panic p) h = tt

pub Checks-Returns {ℓ} :
    {A : Type ℓ} (P : A → Type 0) (m : Outcome A) → Checks (λ _. ⊥) P m → Returns P m
Checks-Returns P (ret a) h = h
Checks-Returns P (panic p) h = h

pub Returns-Checks {ℓ} :
    {A : Type ℓ} (ok : Panic → Type 0) (P : A → Type 0) (m : Outcome A)
    → Returns P m
    → Checks ok P m
Returns-Checks ok P (ret a) h = h
Returns-Checks ok P (panic p) h = absurd h
