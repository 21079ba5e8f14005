-- ===== src/Manager/Closing.antt =====
-- gateway/manager.go, Close: what it does to the groups that the manager's map has.
use sandwich_producer.Base.{
  ℕ, ℤ, true, ◌<◌, ◌≡◌, refl, ◌∙◌, ◌⊎◌, inl, inr, List, [], ◌∷◌, Option, none, some, GoError, arith,
  All, get, get_elem?, get_elem?-set_self, get_elem?-set_ne, get_elem?-lt, set, int_key, length,
  Bool-cases, ◌≢◌, map, length-set, eqb_ℤ, Option-cases,
}
use sandwich_producer.Shard.{Shard, close}
use sandwich_producer.ShardGroup.{ShardGroup, stop, close_shard}
use sandwich_producer.Manager.{Manager, stop_at, stop_all, close_manager}

-- No shard of the group has a connection.
abbrev pub IsClosed : ShardGroup → Type 0
IsClosed g = All (λ (x : ℤ × Shard). x.1.ws_conn ≡ none) g.shards

-- The address has a group with no connection.
abbrev pub ClosedAt : ℕ → List ShardGroup → Type 0
ClosedAt a groups = (g : ShardGroup) × (get_elem? groups a ≡ some g) × IsClosed g

module _ (replies : ℤ → Option GoError) where
  stop_at-none :
      (b : ℕ) (groups : List ShardGroup)
      → get_elem? groups b ≡ none
      → stop_at replies b groups ≡ groups
  unfolding stop_at
  stop_at-none b groups e = rw (e, stop_at) refl

  stop_at-some :
      (b : ℕ) (groups : List ShardGroup) (g : ShardGroup)
      → get_elem? groups b ≡ some g
      → stop_at replies b groups ≡ set groups b (stop replies g)
  unfolding stop_at
  stop_at-some b groups g e = rw (e, stop_at) refl

  stop_at-other :
      (a b : ℕ) (groups : List ShardGroup)
      → b ≢ a
      → get_elem? (stop_at replies b groups) a ≡ get_elem? groups a
  stop_at-other a b groups h = elim (Option-cases (get_elem? groups b)) [
    | inl e ↦ rw (stop_at-none b groups e) refl
    | inr (g, e) ↦ rw (stop_at-some b groups g e) (get_elem?-set_ne groups b a (stop replies g) h)
  ]

module _ (replies : ℤ → Option GoError) (succeed : (id : ℤ) → replies id ≡ none) where
  close_shard-closed : (x : ℤ × Shard) → (close_shard replies x).1.ws_conn ≡ none
  unfolding close_shard close
  close_shard-closed (id, s) = ground (arith, succeed id)

  shards-closed :
      (shards : List (ℤ × Shard))
      → All (λ (x : ℤ × Shard). x.1.ws_conn ≡ none) (map (close_shard replies) shards)
  shards-closed [] = tt
  shards-closed (x ∷ shards) = (close_shard-closed x, shards-closed shards)

  stop-IsClosed : (g : ShardGroup) → IsClosed (stop replies g)
  unfolding stop
  stop-IsClosed g = shards-closed g.shards

  stop_at-length :
      (b : ℕ) (groups : List ShardGroup) → length (stop_at replies b groups) ≡ length groups
  stop_at-length b groups = elim (Option-cases (get_elem? groups b)) [
    | inl e ↦ rw (stop_at-none replies b groups e) refl
    | inr (g, e) ↦ rw (stop_at-some replies b groups g e) (length-set groups b (stop replies g))
  ]

  stop_at_self :
      (a : ℕ) (groups : List ShardGroup) → a < length groups → ClosedAt a (stop_at replies a groups)
  stop_at_self a groups inside =
      let (g, e) = get_elem?-lt groups a inside in
      rw (stop_at-some replies a groups g e)
        (stop replies g, get_elem?-set_self groups a (stop replies g) inside, stop-IsClosed g)

  same_or_not : (a b : ℕ) → (b ≡ a) ⊎ (b ≢ a)
  same_or_not a b = ground arith

  stop_at-keeps :
      (a b : ℕ) (groups : List ShardGroup)
      → a < length groups
      → ClosedAt a groups
      → ClosedAt a (stop_at replies b groups)
  stop_at-keeps a b groups inside (g, e, closed) = elim (same_or_not a b) [
    | inl same ↦ rw same (stop_at_self a groups inside)
    | inr other ↦ (g, stop_at-other replies a b groups other ∙ e, closed)
  ]

  stop_all-keeps :
      (a : ℕ) (places : List (ℤ × ℕ)) (groups : List ShardGroup)
      → a < length groups
      → ClosedAt a groups
      → ClosedAt a (stop_all replies places groups)
  unfolding stop_all
  stop_all-keeps a [] groups inside closed = closed
  stop_all-keeps a ((key, b) ∷ places) groups inside closed =
      stop_all-keeps a places (stop_at replies b groups) (omega (arith, stop_at-length b groups))
        (stop_at-keeps a b groups inside closed)

  stop_all-reaches :
      (key : ℤ) (a : ℕ) (places : List (ℤ × ℕ)) (groups : List ShardGroup)
      → get key places ≡ some a
      → a < length groups
      → ClosedAt a (stop_all replies places groups)
  unfolding stop_all get
  stop_all-reaches key a [] groups found inside = cc
  stop_all-reaches key a ((j, b) ∷ places) groups found inside = elim (Bool-cases (eqb_ℤ j key)) [
    | inl same ↦
        stop_all-keeps a places (stop_at replies b groups) (omega (arith, stop_at-length b groups))
          (rw (hit same) (stop_at_self a groups inside))
    | inr other ↦
        stop_all-reaches key a places (stop_at replies b groups) (ground arith)
          (omega (arith, stop_at-length b groups))
  ]
    where
      hit : eqb_ℤ j key ≡ true → b ≡ a
      hit same = ground arith

  -- Close leaves no connection open in a group that stands under a key of the manager's map, if every
  -- connection closes without an error.
  pub close_manager-ClosedAt :
      (m : Manager) (key : ℤ) (a : ℕ)
      → get key m.registry.shard_groups ≡ some a
      → a < length m.registry.groups
      → ClosedAt a (close_manager replies m).registry.groups
  unfolding close_manager
  close_manager-ClosedAt m key a = stop_all-reaches key a m.registry.shard_groups m.registry.groups

module _ (replies : ℤ → Option GoError) (a : ℕ) where
  stop_all-unreached :
      (places : List (ℤ × ℕ)) (groups : List ShardGroup)
      → All (λ (place : ℤ × ℕ). place.1 ≢ a) places
      → get_elem? (stop_all replies places groups) a ≡ get_elem? groups a
  unfolding stop_all
  stop_all-unreached [] groups h = refl
  stop_all-unreached ((key, b) ∷ places) groups h =
      stop_all-unreached places (stop_at replies b groups) h.1
      ∙ stop_at-other replies a b groups h.0

  -- Close does not reach a group that no entry of the manager's map points to: its shards stay as
  -- they were.
  pub close_manager-unreached :
      (m : Manager)
      → All (λ (place : ℤ × ℕ). place.1 ≢ a) m.registry.shard_groups
      → get_elem? (close_manager replies m).registry.groups a ≡ get_elem? m.registry.groups a
  unfolding close_manager
  close_manager-unreached m = stop_all-unreached m.registry.shard_groups m.registry.groups
