-- ===== src/ShardGroup/Exclusion.antt =====
-- gateway/shard_group.go, Spawn: what the mutex of the group excludes, and what it does not.
use sandwich_producer.Base.{
  ℕ, ◌+◌, ◌≤◌, ◌≡◌, refl, List, [], ◌∷◌, ◌++◌, String, arith, System, Step, pick, here, later, map,
  total, Respects, Steps-IsHeldOnce, IsHeldOnce-two,
}
use sandwich_producer.ShardGroup.{ShardGroup, Birth}
use sandwich_producer.ShardGroup.Steps.{
  Room, SpawnPc, starting, storing, stored, looking, store_shard, SpawnMove, locks, stores, unlocks,
  looks, SpawnReach, runs,
}

-- Is the goroutine between Lock and Unlock.
abbrev pub in_store : SpawnPc → ℕ
in_store (storing b) = 1
in_store (stored b) = 1
in_store _ = 0

module _ (token : String) where
  Move-Respects :
      (r r' : Room) (p p' : SpawnPc)
      → SpawnMove token r p r' p'
      → Respects (SpawnMove token) (λ r. r.shards_mu) in_store r p r' p'
  Move-Respects r r' p p' (locks e) h k = ground arith
  Move-Respects r r' p p' stores h k = ground arith
  Move-Respects r r' p p' unlocks h k = ground arith
  Move-Respects r r' p p' looks h k = ground arith

  none_in_store : (births : List Birth) → total in_store (map starting births) ≡ 0
  none_in_store [] = refl
  none_in_store (b ∷ births) = omega (arith, none_in_store births)

  -- At most one goroutine is between Lock and Unlock, so no two write to the map at once.
  pub one_in_store :
      {births : List Birth} {g : ShardGroup} {s : System Room SpawnPc}
      → SpawnReach token births g s
      → (before between after : List SpawnPc) (p q : SpawnPc)
      → s.pcs ≡ before ++ p ∷ between ++ q ∷ after
      → in_store p + in_store q ≤ 1
  one_in_store {births} (runs steps) =
      IsHeldOnce-two (SpawnMove token) (λ r. r.shards_mu) in_store
        (Steps-IsHeldOnce (SpawnMove token) (λ r. r.shards_mu) in_store Move-Respects steps
          (record { holders = none_in_store births; once = omega arith }))

  -- The read of the map after the unlock is not kept apart from a write: in a Start with two shards or
  -- more, one goroutine can be about to write the map, with the mutex, while another is about to
  -- read it without.
  pub spawn_race :
      (b c : Birth) (births : List Birth) (g : ShardGroup)
      → (s : System Room SpawnPc) × SpawnReach token (b ∷ c ∷ births) g s
        × (s.pcs ≡ storing b ∷ looking c ∷ map starting births)
  spawn_race b c births g = (
    places 1 (store_shard token c g) (storing b) (looking c),
    runs (later (later (later (later here first) second) third) fourth),
    refl,
  )
    where
      places : ℕ → ShardGroup → SpawnPc → SpawnPc → System Room SpawnPc
      places mu h p q = record {
        shared = record { shards_mu = mu; group = h };
        pcs = p ∷ q ∷ map starting births;
      }

      first :
          Step
            (SpawnMove token)
            (places 0 g (starting b) (starting c))
            (places 1 g (starting b) (storing c))
      first = pick (starting b ∷ []) (map starting births) refl (locks refl) refl

      second :
          Step
            (SpawnMove token)
            (places 1 g (starting b) (storing c))
            (places 1 (store_shard token c g) (starting b) (stored c))
      second = pick (starting b ∷ []) (map starting births) refl stores refl

      third :
          Step
            (SpawnMove token)
            (places 1 (store_shard token c g) (starting b) (stored c))
            (places 0 (store_shard token c g) (starting b) (looking c))
      third = pick (starting b ∷ []) (map starting births) refl unlocks refl

      fourth :
          Step
            (SpawnMove token)
            (places 0 (store_shard token c g) (starting b) (looking c))
            (places 1 (store_shard token c g) (storing b) (looking c))
      fourth = pick [] (looking c ∷ map starting births) refl (locks refl) refl
