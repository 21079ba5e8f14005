-- ===== src/ShardGroup/Overlap/Turns.antt =====
-- gateway/shard_group.go, the end of Start: one turn at the manager's mutex.
use sandwich_producer.Base.{
  ℤ, ℕ, suc, ◌+◌, ◌%◌, ◌^◌, ◌≡◌, ◌<◌, ◌≤◌, refl, ap, inl, inr, List, [], ◌∷◌, Option, none, some,
  String, arith, GoError, ret, length, length-set, get_elem?, get_elem?-set_ne, get_elem?-bound,
  get_elem?-lt, sym, get_elem?-set_self, set, get_elem?-append_last, ◌++◌, int_key,
}
use sandwich_producer.ShardGroup.{
  ShardGroup, Registry, new_shard_group, stop, start, conclude, scale,
}
use mathlib.Core.Path.{subst}
use sandwich_producer.ShardGroup.Rotation.{after_starts, rotate_even, rotate_odd}
use sandwich_producer.ShardGroup.Succession.{parity}
use sandwich_producer.ShardGroup.Overlap.{Scaling, spawned_group, Runs}
use sandwich_producer.ShardGroup.Overlap.Places.{
  placed, placed_even, placed_odd, latest, stops_of, occurs, Lived, Lived-stopped, Leaves,
  Leaves-next, Leaves-set,
}

module _ (token : String) (runs : Runs) (replies : ℤ → Option GoError) where
  -- What the turn of the group at `a` makes of the groups, after the turns of `order`: the call returns no
  -- error, and only groups that have had their turn can change.
  pub record Turned (groups : List ShardGroup) (order : List (ℕ × Scaling)) (a : ℕ) (q : Scaling)
      (g : ShardGroup) : Type 0 where
    pub groups' : List ShardGroup
    pub concludes :
        conclude replies a g (after_starts (length order) groups (placed order)) none
        ≡ ret (none, after_starts (length order + 1) groups' (placed ((a, q) ∷ order)))
    pub leaves : Leaves token runs replies groups' (length order + 1) ((a, q) ∷ order)
    pub same_length : length groups' ≡ length groups
    pub others : (c : ℕ) → occurs c order ≡ 0 → get_elem? groups' c ≡ get_elem? groups c

  stops_of-latest : (n : ℕ) → 0 ≡ stops_of (n + 1) n
  stops_of-latest n = ground arith

  module _ (groups : List ShardGroup) (a : ℕ) (q : Scaling) (g : ShardGroup)
      (here : Lived token runs replies 0 q (get_elem? groups a)) where
    turned_even :
        (order : List (ℕ × Scaling))
        → length order + 1 < 2 ^ 63
        → length order % 2 ≡ 0
        → Leaves token runs replies groups (length order) order
        → Turned groups order a q g
    unfolding conclude
    turned_even order small even h = record {
      groups' = groups;
      concludes =
          rw
            (
              rotate_even replies groups (placed order) a (length order) small even,
              placed_even a q order even,
            )
            refl;
      leaves = (
        subst (λ k. Lived token runs replies k q (get_elem? groups a))
            (stops_of-latest (length order)) here,
        Leaves-next token runs replies groups (length order) order (omega arith)
            (λ odd. omega (arith, odd, even)) h,
      );
      same_length = refl;
      others = λ c e. refl;
    }

    -- The group at `b` had the latest turn.
    turned_odd :
        (b : ℕ) (p : Scaling) (order : List (ℕ × Scaling))
        → length order + 2 < 2 ^ 63
        → length order % 2 ≡ 0
        → occurs a ((b, p) ∷ order) ≡ 0
        → occurs b order ≡ 0
        → Leaves token runs replies groups (suc (length order)) ((b, p) ∷ order)
        → Turned groups ((b, p) ∷ order) a q g
    unfolding conclude
    turned_odd b p order small even new once h = record {
      groups' = set groups b (stop replies x);
      concludes =
          rw
            (
              rotate_odd replies groups (placed ((b, p) ∷ order)) a (suc (length order))
                  (omega (arith, small)) b x (omega (arith, even)) (latest b p order even) alive,
              placed_odd a q b p order even,
            )
            refl;
      leaves = (
        subst (λ k. Lived token runs replies k q (get_elem? (set groups b (stop replies x)) a))
            (stops_of-latest (suc (length order)))
            (subst (Lived token runs replies 0 q)
              (sym (get_elem?-set_ne groups b a (stop replies x) (ground (arith, new)))) here),
        (
          subst (Lived token runs replies _ p)
              (sym (get_elem?-set_self groups b (stop replies x) inside))
              (subst (λ k. Lived token runs replies k p (some (stop replies x))) (ground arith)
                (Lived-stopped token runs replies p x (
                  subst (Lived token runs replies 0 p) alive (
                    subst (λ k. Lived token runs replies k p (get_elem? groups b)) (ground arith)
                      h.0)))),
          Leaves-set token runs replies groups (suc (length order) + 1) b _ order once (
              Leaves-next token runs replies groups (suc (length order)) order (omega arith)
                (λ odd. omega arith) h.1),
        ),
      );
      same_length = length-set groups b (stop replies x);
      others = λ c e. get_elem?-set_ne groups b c _ (ground (arith, e));
    }
      where
        inside : b < length groups
        inside = get_elem?-bound groups b h.0.now

        x : ShardGroup
        x = (get_elem?-lt groups b inside).0

        alive : get_elem? groups b ≡ some x
        alive = (get_elem?-lt groups b inside).1

    -- The same for any number of turns.
    pub turned :
        (order : List (ℕ × Scaling))
        → length order + 1 < 2 ^ 63
        → occurs a order ≡ 0
        → ((c : ℕ) → occurs c order ≤ 1)
        → Leaves token runs replies groups (length order) order
        → Turned groups order a q g
    turned [] small new once h = turned_even [] small refl h
    turned ((b, p) ∷ order) small new once h = elim (parity (length order)) [
      | inl even ↦ turned_odd b p order (omega (arith, small)) even new (ground (arith, once b)) h
      | inr odd ↦ turned_even ((b, p) ∷ order) small (omega (arith, odd)) h
    ]

set-append_last :
    {A : Type 0} (xs : List A) (x y : A) → set (xs ++ x ∷ []) (length xs) y ≡ xs ++ y ∷ []
set-append_last [] x y = refl
set-append_last (z ∷ xs) x y = ap (λ l. z ∷ l) (set-append_last xs x y)

-- A call of Scale that nothing overlaps makes its group and has its turn.
scale_turn :
    (token : String) (replies : ℤ → Option GoError) (q : Scaling) (r : Registry)
    → scale token q.clocks replies q.ids q.count r
      ≡ conclude replies
          (length r.groups)
          (spawned_group token q)
          (record r { groups = r.groups ++ spawned_group token q ∷ [] })
          (spawned_group token q).err
unfolding scale start spawned_group new_shard_group
scale_turn token replies q r =
    rw
      (
        start,
        get_elem?-append_last r.groups (new_shard_group q.ids q.count),
        set-append_last r.groups (new_shard_group q.ids q.count) (spawned_group token q),
      )
      refl
