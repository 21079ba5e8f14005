-- ===== src/Examples/Groups.antt =====
-- gateway/shard_group.go and gateway/manager.go at concrete inputs.
use sandwich_producer.Base.{
  ℤ, pos, ◌+◌, ◌*◌, ◌/◌, ◌%◌, ◌≡◌, ◌↔◌, refl, List, [], ◌∷◌, Option, none, arith, GoError, ret,
  Returns, get, int_key,
}
use sandwich_producer.ShardGroup.{Registry, Clocks, scale}
use sandwich_producer.ShardGroup.Rotation.{Holds, after_starts}
use sandwich_producer.ShardGroup.Succession.{Scaled, scale-Scaled}
use sandwich_producer.Sharding.Clusters.{all_clusters, all_clusters_split, shards_from}

abbrev pub no_replies : ℤ → Option GoError
no_replies _ = none

abbrev pub clocks : Clocks
clocks id = (pos 10, pos 11)

abbrev pub ids : List ℤ
ids = pos 0 ∷ pos 1 ∷ []

abbrev empty : Registry
empty = after_starts 0 [] []

empty-Holds : Holds 0 0 empty
unfolding get
empty-Holds = record {
  two_places = refl;
  counted = refl;
  current = λ h. absurd (omega arith);
  in_heap = λ h. absurd (omega arith);
  only = λ j _ _. refl;
}

scale-Scaled_example :
    Returns
      (Scaled "token" ids (pos 2) no_replies 0 0 empty)
      (scale "token" clocks no_replies ids (pos 2) empty)
scale-Scaled_example =
    scale-Scaled "token" clocks no_replies ids (pos 2) 0 0 empty (omega arith) empty-Holds

-- Seven shards over two clusters: the seventh is run by none.
all_clusters_split_example :
    (all_clusters 2 7 2 ≡ ret (shards_from 0 (7 / 2 * 2)))
    × (7 / 2 * 2 + 7 % 2 ≡ 7)
    × ((7 / 2 * 2 ≡ 7) ↔ (7 % 2 ≡ 0))
all_clusters_split_example = all_clusters_split 7 2 (omega arith) (omega arith) (omega arith)
