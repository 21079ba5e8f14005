-- ===== src/ShardGroup/Overlap/Places.antt =====
-- gateway/shard_group.go: the manager's map, and the groups, after calls of Scale in the order of their
-- turns.
use sandwich_producer.Base.{
  ℕ, ℤ, pos, ◌+◌, ◌%◌, ◌==◌, ◌≡◌, ◌<◌, ◌≤◌, refl, ap, sym, ◌∙◌, List, [], ◌∷◌, ◌++◌, Option, none,
  some, String, arith, GoError, Bool, ◌||◌, length, get_elem?, get_elem?-set_ne, get_elem?-set_self,
  get_elem?-append, get_elem?-bound, ℕ_discrete, get, put, delete, int_key, if◌then◌else◌, set,
}
use mathlib.Core.Path.{subst}
use sandwich_producer.ShardGroup.{born, ShardGroup, new_shard_group, stop}
use sandwich_producer.ShardGroup.Spawning.{spawn_all_keeps}
use sandwich_producer.ShardGroup.Overlap.{
  Scaling, spawned_group, Runs, lived, Deed, ran, was_stopped, replay,
}

-- The map after the groups of a list have had their turns, the latest first.
abbrev pub placed : List (ℕ × Scaling) → List (ℤ × ℕ)
placed [] = []
placed ((a, q) ∷ []) = (pos 1, a) ∷ []
placed ((a, q) ∷ (b, p) ∷ rest) =
    if length rest % 2 == 0 then (pos 0, a) ∷ [] else (pos 0, b) ∷ (pos 1, a) ∷ []

pub placed_even :
    (a : ℕ) (q : Scaling) (order : List (ℕ × Scaling))
    → length order % 2 ≡ 0
    → put (pos 1) a (placed order) ≡ placed ((a, q) ∷ order)
unfolding put
placed_even a q [] h = refl
placed_even a q (_ ∷ []) h = absurd (omega (arith, h))
placed_even a q ((b, p) ∷ _ ∷ order) h = ground arith

pub placed_odd :
    (a : ℕ) (q : Scaling) (b : ℕ) (p : Scaling) (order : List (ℕ × Scaling))
    → length order % 2 ≡ 0
    → put (pos 0) a (delete (pos 1) (placed ((b, p) ∷ order))) ≡ placed ((a, q) ∷ (b, p) ∷ order)
unfolding put delete
placed_odd a q b p [] h = refl
placed_odd a q b p (_ ∷ []) h = absurd (omega (arith, h))
placed_odd a q b p (_ ∷ _ ∷ order) h = ground arith

pub latest :
    (b : ℕ) (p : Scaling) (order : List (ℕ × Scaling))
    → length order % 2 ≡ 0
    → get (pos 1) (placed ((b, p) ∷ order)) ≡ some b
unfolding get
latest b p [] h = refl
latest b p (_ ∷ []) h = absurd (omega (arith, h))
latest b p (_ ∷ _ ∷ order) h = ground arith

some-eq {ℓ} : {A : Type ℓ} {x y : A} → some x ≡ some y → x ≡ y
some-eq e = cc

-- Of `n` groups that had their turns, the `i`-th, counted from 0, is never stopped: it had an even turn,
-- or the last.
abbrev pub is_kept : ℕ → ℕ → Bool
is_kept n i = (i % 2 == 1) || (i + 1 == n)

-- How often a group is stopped.
abbrev pub stops_of : ℕ → ℕ → ℕ
stops_of n i = if is_kept n i then 0 else 1

abbrev pub stops_in : List Deed → ℕ
stops_in [] = 0
stops_in (ran i ∷ deeds) = stops_in deeds
stops_in (was_stopped ∷ deeds) = 1 + stops_in deeds

-- How often a group is in a list.
abbrev pub occurs : ℕ → List (ℕ × Scaling) → ℕ
occurs a [] = 0
occurs a ((b, q) ∷ order) = (if b == a then 1 else 0) + occurs a order

module _ (token : String) (runs : Runs) (replies : ℤ → Option GoError) where
  -- The group of a call, to which its shards have done something, and which has been stopped `k` times.
  pub record Lived (k : ℕ) (q : Scaling) (x : Option ShardGroup) : Type 0 where
    pub deeds : List Deed
    pub now : x ≡ some (replay runs replies deeds (spawned_group token q))
    pub stops : stops_in deeds ≡ k

  pub Lived-new : (q : Scaling) → Lived 0 q (some (spawned_group token q))
  unfolding replay
  Lived-new q = record { deeds = []; now = refl; stops = refl }

  pub Lived-ran :
      (k i : ℕ) (q : Scaling) (g : ShardGroup)
      → Lived k q (some g)
      → Lived k q (some (lived runs i g))
  unfolding replay
  Lived-ran k i q g l = record {
    deeds = ran i ∷ l.deeds;
    now = ap (λ h. some (lived runs i h)) (some-eq l.now);
    stops = l.stops;
  }

  pub Lived-stopped :
      (q : Scaling) (g : ShardGroup) → Lived 0 q (some g) → Lived 1 q (some (stop replies g))
  unfolding replay
  Lived-stopped q g l = record {
    deeds = was_stopped ∷ l.deeds;
    now = ap (λ h. some (stop replies h)) (some-eq l.now);
    stops = omega (arith, l.stops);
  }

  replay-err : (deeds : List Deed) (g : ShardGroup) → (replay runs replies deeds g).err ≡ g.err
  unfolding replay lived stop
  replay-err [] g = refl
  replay-err (ran i ∷ deeds) g = replay-err deeds g
  replay-err (was_stopped ∷ deeds) g = replay-err deeds g

  -- Nothing that is done to a group gives it an error.
  pub Lived-err : (k : ℕ) (q : Scaling) (g : ShardGroup) → Lived k q (some g) → g.err ≡ none
  unfolding spawned_group
  Lived-err k q g l =
      ap (λ (h : ShardGroup). h.err) (some-eq l.now)
      ∙ (replay-err l.deeds (spawned_group token q)
          ∙ (spawn_all_keeps token (born q.clocks q.ids)
              (record (new_shard_group q.ids q.count) { err = none })).0)

  -- What is known of the groups of one list is known of the groups of another.
  abbrev pub Keeps : List ShardGroup → List ShardGroup → Type 0
  Keeps groups groups' =
      (a k : ℕ) (q : Scaling) → Lived k q (get_elem? groups a) → Lived k q (get_elem? groups' a)

  pub Lived-bound :
      (groups : List ShardGroup) (a k : ℕ) (q : Scaling)
      → Lived k q (get_elem? groups a)
      → a < length groups
  Lived-bound groups a k q l = get_elem?-bound groups a l.now

  pub Keeps-append : (groups groups' : List ShardGroup) → Keeps groups (groups ++ groups')
  Keeps-append groups groups' a k q l =
      subst (Lived k q) (sym (get_elem?-append groups groups' a (Lived-bound groups a k q l))) l

  pub Keeps-ran :
      (groups : List ShardGroup) (b i : ℕ) (g : ShardGroup)
      → get_elem? groups b ≡ some g
      → Keeps groups (set groups b (lived runs i g))
  Keeps-ran groups b i g here a k q l = elim (ℕ_discrete b a) [
    | yes e ↦
        subst (Lived k q)
          (sym (
            ap (get_elem? (set groups b (lived runs i g))) (sym e)
            ∙ get_elem?-set_self groups b (lived runs i g) (get_elem?-bound groups b here)))
          (Lived-ran k i q g (subst (Lived k q) (ap (get_elem? groups) (sym e) ∙ here) l))
    | no other ↦ subst (Lived k q) (sym (get_elem?-set_ne groups b a (lived runs i g) other)) l
  ]

  -- What `n` turns leave of the groups of a list, the latest first.
  abbrev pub Leaves : List ShardGroup → ℕ → List (ℕ × Scaling) → Type 0
  Leaves groups n [] = Unit
  Leaves groups n ((a, q) ∷ order) =
      Lived (stops_of n (length order)) q (get_elem? groups a) × Leaves groups n order

  pub Leaves-mono :
      (groups groups' : List ShardGroup) (n : ℕ) (order : List (ℕ × Scaling))
      → Keeps groups groups'
      → Leaves groups n order
      → Leaves groups' n order
  Leaves-mono groups groups' n [] f h = tt
  Leaves-mono groups groups' n ((a, q) ∷ order) f h =
      (f a _ q h.0, Leaves-mono groups groups' n order f h.1)

  stops_of-suc : (n i : ℕ) → i < n → (n % 2 ≡ 1 → i + 1 < n) → stops_of n i ≡ stops_of (n + 1) i
  stops_of-suc n i lt odd = ground arith

  -- One more turn changes nothing for the groups of a list that is not longer than the turns so far, and
  -- shorter if these are odd.
  pub Leaves-next :
      (groups : List ShardGroup) (n : ℕ) (order : List (ℕ × Scaling))
      → length order ≤ n
      → (n % 2 ≡ 1 → length order < n)
      → Leaves groups n order
      → Leaves groups (n + 1) order
  Leaves-next groups n [] few odd h = tt
  Leaves-next groups n ((a, q) ∷ order) few odd h = (
    subst (λ k. Lived k q (get_elem? groups a))
        (stops_of-suc n (length order) (omega (arith, few)) (λ e. omega (arith, odd e))) h.0,
    Leaves-next groups n order (omega (arith, few)) (λ e. omega (arith, odd e)) h.1,
  )

  -- A group that is not in the list can be changed.
  pub Leaves-set :
      (groups : List ShardGroup) (n a : ℕ) (g : ShardGroup) (order : List (ℕ × Scaling))
      → occurs a order ≡ 0
      → Leaves groups n order
      → Leaves (set groups a g) n order
  Leaves-set groups n a g [] e h = tt
  Leaves-set groups n a g ((b, q) ∷ order) e h = (
    subst (Lived (stops_of n (length order)) q)
        (sym (get_elem?-set_ne groups a b g (ground (arith, e)))) h.0,
    Leaves-set groups n a g order (ground (arith, e)) h.1,
  )
