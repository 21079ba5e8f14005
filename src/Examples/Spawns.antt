-- ===== src/Examples/Spawns.antt =====
-- gateway/shard_group.go, Start, with two goroutines.
use sandwich_producer.Base.{
  pos, ◌≡◌, refl, List, [], ◌∷◌, System, pick, Steps, here, later, All, int_key,
}
use sandwich_producer.ShardGroup.{ShardGroup, Birth, new_shard_group, spawn_all}
use sandwich_producer.ShardGroup.Reordering.{IsSame}
use sandwich_producer.ShardGroup.Steps.{
  Room, SpawnPc, starting, storing, stored, looking, SpawnMove, locks, stores, unlocks, looks,
  SpawnReach, runs,
}
use sandwich_producer.ShardGroup.Atomicity.{IsFinished, interleaved-IsSame}
use sandwich_producer.ShardGroup.Exclusion.{spawn_race}

abbrev zeroth : Birth
zeroth = record { shard_id = pos 0; ack = pos 10; sent = pos 11 }

abbrev first : Birth
first = record { shard_id = pos 1; ack = pos 12; sent = pos 13 }

abbrev births : List Birth
births = zeroth ∷ first ∷ []

abbrev group : ShardGroup
group = new_shard_group (pos 0 ∷ pos 1 ∷ []) (pos 2)

abbrev Places : Room → SpawnPc → SpawnPc → System Room SpawnPc
Places r p q = record { shared = r; pcs = p ∷ q ∷ [] }

abbrev Moves : System Room SpawnPc → System Room SpawnPc → Type 0
Moves = Steps (SpawnMove "token")

left :
    (r r' : Room) (p p' q : SpawnPc) {s : System Room SpawnPc}
    → SpawnMove "token" r p r' p'
    → Moves s (Places r p q)
    → Moves s (Places r' p' q)
left r r' p p' q mv m = later m (pick [] (q ∷ []) refl mv refl)

right :
    (r r' : Room) (p q q' : SpawnPc) {s : System Room SpawnPc}
    → SpawnMove "token" r q r' q'
    → Moves s (Places r p q)
    → Moves s (Places r' p q')
right r r' p q q' mv m = later m (pick (p ∷ []) [] refl mv refl)

-- The second goroutine stores its shard first, and looks it up while the first has the mutex.
started : (s : System Room SpawnPc) × SpawnReach "token" births group s × All IsFinished s.pcs
started = (
  _,
  runs (
      left _ _ (looking zeroth) _ _ looks (
        left _ _ (stored zeroth) _ _ unlocks (
          left _ _ (storing zeroth) _ _ stores (
            right _ _ _ (looking first) _ looks (
              left _ _ (starting zeroth) _ _ (locks refl) (
                right _ _ _ (stored first) _ unlocks (
                  right _ _ _ (storing first) _ stores
                    (right _ _ _ (starting first) _ (locks refl) here)))))))),
  (tt, (tt, tt)),
)

interleaved-IsSame_example : IsSame (spawn_all "token" births group) started.0.shared.group
interleaved-IsSame_example =
    interleaved-IsSame "token" (((λ h. cc), tt), (tt, tt)) started.1 started.2

spawn_race_example :
    (s : System Room SpawnPc) × SpawnReach "token" births group s
    × (s.pcs ≡ storing zeroth ∷ looking first ∷ [])
spawn_race_example = spawn_race "token" zeroth first [] group
