-- ===== src/ShardGroup/Overlap/Order.antt =====
-- gateway/manager.go: calls of Scale that overlap, step by step.
use sandwich_producer.Base.{
  ℤ, ℕ, ◌≡◌, List, ◌∷◌, ◌++◌, Option, none, String, GoError, System, Steps, int_key,
}
use sandwich_producer.ShardGroup.{Registry}
use sandwich_producer.ShardGroup.Overlap.{Scaling, Runs, ScalePc, spawned, returned, ScaleMove}

module _ (token : String) (runs : Runs) (replies : ℤ → Option GoError) where
  -- No call that has its group has to wait for another call: it can take its turn, and returns no error.
  abbrev pub NoneWaits : System Registry ScalePc → Type 0
  NoneWaits s =
      (before after : List ScalePc) (a : ℕ) (q : Scaling)
      → s.pcs ≡ before ++ spawned a q ∷ after
      → (r : Registry) × ScaleMove token runs replies s.shared (spawned a q) r (returned a q none)
