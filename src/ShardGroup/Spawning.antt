-- ===== src/ShardGroup/Spawning.antt =====
-- gateway/shard_group.go: the shards that `Start` makes.
use sandwich_producer.Base.{
  ℤ, pos, ◌≡◌, refl, List, [], ◌∷◌, none, some, String, All, get, put, get-put, get-put_self,
  int_key, eqb_ℤ, eqb_ℤ_iff, Bool-cases, inl, inr,
}
use mathlib.Core.Path.{subst}
use sandwich_producer.Shard.{Shard}
use sandwich_producer.ShardGroup.{ShardGroup, Birth, new_shard, spawn, spawn_all}

-- Spawning leaves all of a group but its shards as it was.
pub spawn_all_keeps :
    (token : String) (births : List Birth) (g : ShardGroup)
    → ((spawn_all token births g).err ≡ g.err)
      × ((spawn_all token births g).shard_count ≡ g.shard_count)
      × ((spawn_all token births g).shard_ids ≡ g.shard_ids)
unfolding spawn_all spawn
spawn_all_keeps token [] g = (refl, refl, refl)
spawn_all_keeps token (b ∷ births) g =
    spawn_all_keeps token births
      (record g { shards = put b.shard_id (new_shard token g b) g.shards })

-- A shard as it is made for its id: with the group's count and the token, and with no connection and
-- no session.
pub record IsNew (token : String) (count id : ℤ) (s : Shard) : Type 0 where
  pub token_given : s.token ≡ token
  pub id_given : s.shard_id ≡ id
  pub count_given : s.shard_count ≡ count
  pub unconnected : s.ws_conn ≡ none
  pub no_sequence : s.seq ≡ pos 0
  pub no_session : s.session_id ≡ ""

abbrev pub HasNew : String → ℤ → ShardGroup → Type 0
HasNew token id g = (s : Shard) × (get id g.shards ≡ some s) × IsNew token g.shard_count id s

module _ (token : String) where
  spawn-HasNew : (b : Birth) (g : ShardGroup) → HasNew token b.shard_id (spawn token b g)
  unfolding spawn
  spawn-HasNew b g = (
    new_shard token g b,
    get-put_self b.shard_id (new_shard token g b) g.shards,
    record {
      token_given = refl;
      id_given = refl;
      count_given = refl;
      unconnected = refl;
      no_sequence = refl;
      no_session = refl;
    },
  )

  spawn-keeps_new :
      (b : Birth) (g : ShardGroup) (id : ℤ) → HasNew token id g → HasNew token id (spawn token b g)
  unfolding spawn
  spawn-keeps_new b g id (s, e, n) = elim (Bool-cases (eqb_ℤ b.shard_id id)) [
    | inl same ↦
        subst (λ i. HasNew token i (spawn token b g)) ((eqb_ℤ_iff b.shard_id id).0 same)
          (spawn-HasNew b g)
    | inr other ↦ (s, rw (get-put b.shard_id id (new_shard token g b) g.shards, other) e, n)
  ]

  spawn_all-keeps_new :
      (births : List Birth) (g : ShardGroup) (id : ℤ)
      → HasNew token id g
      → HasNew token id (spawn_all token births g)
  unfolding spawn_all
  spawn_all-keeps_new [] g id h = h
  spawn_all-keeps_new (b ∷ births) g id h =
      spawn_all-keeps_new births (spawn token b g) id (spawn-keeps_new b g id h)

  -- In whatever order the goroutines of Start run, the group has a new shard for the id of each of
  -- them in the end.
  pub spawn_all-HasNew :
      (births : List Birth) (g : ShardGroup)
      → All (λ b. HasNew token b.shard_id (spawn_all token births g)) births
  unfolding spawn_all
  spawn_all-HasNew [] g = tt
  spawn_all-HasNew (b ∷ births) g = (
    spawn_all-keeps_new births (spawn token b g) b.shard_id (spawn-HasNew b g),
    spawn_all-HasNew births (spawn token b g),
  )
