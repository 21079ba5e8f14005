-- ===== src/Examples/Overlaps.antt =====
-- gateway/manager.go: calls of Scale that overlap, and Close after four of them.
use sandwich_producer.Base.{pos, [], ◌∷◌, refl, none, some, arith, System, inl, inr}
use sandwich_producer.ShardGroup.{ShardGroup, Registry, stop}
use sandwich_producer.ShardGroup.Rotation.{after_starts}
use sandwich_producer.ShardGroup.Overlap.{
  Scaling, spawned_group, Runs, lived, replay, ran, was_stopped, ScalePc, living, spawned, returned,
}
use sandwich_producer.ShardGroup.Overlap.Calls.{Overlapped}
use sandwich_producer.Examples.Groups.{no_replies, clocks, ids}

abbrev scaling : Scaling
scaling = record { clocks = clocks; ids = ids; count = pos 2 }

-- Every shard dials.
abbrev connects : Runs
connects i id sh = record sh { ws_conn = some i }

abbrev fresh : ShardGroup
fresh = spawned_group "token" scaling

abbrev connected : ShardGroup
connected = lived connects 7 fresh

-- The call that made its group last has the first turn, and the shards of its group dial.
abbrev turned_first : System Registry ScalePc
turned_first = record {
  shared = after_starts 1 (fresh ∷ connected ∷ []) ((pos 1, 1) ∷ []);
  pcs = living ∷ spawned 0 scaling ∷ returned 1 scaling none ∷ [];
}

-- Four calls, each after the one before, whose groups dial.
abbrev four : System Registry ScalePc
four = record {
  shared =
      after_starts 4
        (stop no_replies connected ∷ connected ∷ stop no_replies connected ∷ connected ∷ [])
        ((pos 0, 3) ∷ []);
  pcs =
      living
      ∷ returned 0 scaling none
      ∷ returned 1 scaling none
      ∷ returned 2 scaling none
      ∷ returned 3 scaling none
      ∷ [];
}

four_overlapped : Overlapped "token" connects no_replies four
unfolding replay
four_overlapped = record {
  order = (3, scaling) ∷ (2, scaling) ∷ (1, scaling) ∷ (0, scaling) ∷ [];
  registry = refl;
  leaves = (
    record { deeds = ran 7 ∷ []; now = refl; stops = refl },
    (
      record { deeds = was_stopped ∷ ran 7 ∷ []; now = refl; stops = refl },
      (
        record { deeds = ran 7 ∷ []; now = refl; stops = refl },
        (record { deeds = was_stopped ∷ ran 7 ∷ []; now = refl; stops = refl }, tt),
      ),
    ),
  );
  once = λ a. ground arith;
  pcs = (
    tt,
    (
      (refl, inr (inr (inr (inl (refl, refl))))),
      (
        (refl, inr (inr (inl (refl, refl)))),
        ((refl, inr (inl (refl, refl))), ((refl, inl (refl, refl)), tt)),
      ),
    ),
  );
  unique = λ a. ground arith;
  bounded = λ a le. ground arith;
  over = refl;
}
