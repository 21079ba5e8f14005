-- ===== src/Shard/Continue.antt =====
-- gateway/shard.go: which errors let a shard go on, and whether `Open` ever returns.
use sandwich_producer.Base.{
  true, ◌≡◌, ◌≢◌, List, [], ◌∷◌, Option, ret, GoError, arith, inl, inr, Outcome-cases, ◌>>=◌,
}
use sandwich_producer.Shard.{Libraries, State, can_continue}
use sandwich_producer.Shard.Connect.{Upstream, Attempt, returned, running, connect, open_shard}

-- canContinue is true of every error, so also of the close codes that are meant to end a shard
-- (sharding required, authentication failed, invalid shard, normal closure).
pub can_continue_always : (lib : Libraries) (err : Option GoError) → can_continue lib err ≡ true
unfolding can_continue
can_continue_always lib err = ground arith

module _ (lib : Libraries) (up : Upstream) where
  -- However many connections end, and with whatever errors, Open does not return.
  pub open_shard-ne-returned :
      (attempts : List Attempt) (s : State) (err : Option GoError) (t : State)
      → open_shard lib up attempts s ≢ ret (returned err, t)
  unfolding open_shard
  open_shard-ne-returned [] s err t = λ h. cc
  open_shard-ne-returned (a ∷ attempts) s err t = elim (Outcome-cases (connect lib up a s)) [
    | inr (p, e) ↦ rw (e, ◌>>=◌) (λ h. cc)
    | inl ((running, s'), e) ↦ rw (e, ◌>>=◌) (λ h. cc)
    | inl ((returned last, s'), e) ↦
        rw (e, ◌>>=◌, can_continue_always lib last) (open_shard-ne-returned attempts s' err t)
  ]
