-- ===== src/ShardGroup/Atomicity.antt =====
-- gateway/shard_group.go, Start: its interleaved goroutines come to what `spawn_all` computes.
use mathlib.Core.List.{Permᴰ, append_assoc}
use mathlib.Core.List.Permᴰ
use mathlib.Core.Path.{subst}
use sandwich_producer.Base.{
  ◌≡◌, refl, sym, ap, ◌∙◌, List, [], ◌∷◌, ◌++◌, String, All, System, Step, pick, Steps, here, later,
  map,
}
use sandwich_producer.Shard.{wait_for_ready}
use sandwich_producer.ShardGroup.{ShardGroup, Birth, spawn, spawn_all}
use sandwich_producer.ShardGroup.Reordering.{Distinct, IsSame, spawn_all_reordered}
use sandwich_producer.ShardGroup.Steps.{
  Room, SpawnPc, starting, storing, stored, looking, finished, store_shard, note_error, SpawnMove,
  locks, stores, unlocks, looks, SpawnReach, runs,
}

abbrev pub IsFinished : SpawnPc → Type 0
IsFinished (finished s) = Unit
IsFinished _ = ⊥

-- The shards that are still to be written to the map.
unfoldable pub pending : List SpawnPc → List Birth
pending [] = []
pending (starting b ∷ pcs) = b ∷ pending pcs
pending (storing b ∷ pcs) = b ∷ pending pcs
pending (_ ∷ pcs) = pending pcs

pending-append : (ps qs : List SpawnPc) → pending (ps ++ qs) ≡ pending ps ++ pending qs
unfolding pending
pending-append [] qs = refl
pending-append (starting b ∷ ps) qs = ap (λ l. b ∷ l) (pending-append ps qs)
pending-append (storing b ∷ ps) qs = ap (λ l. b ∷ l) (pending-append ps qs)
pending-append (stored b ∷ ps) qs = pending-append ps qs
pending-append (looking b ∷ ps) qs = pending-append ps qs
pending-append (finished s ∷ ps) qs = pending-append ps qs

pending-map : (births : List Birth) → pending (map starting births) ≡ births
unfolding pending
pending-map [] = refl
pending-map (b ∷ births) = ap (λ l. b ∷ l) (pending-map births)

module _ (token : String) where
  spawn-store_shard : (b : Birth) (g : ShardGroup) → spawn token b g ≡ store_shard token b g
  unfolding spawn store_shard
  spawn-store_shard b g = refl

  spawn_all-append :
      (bs : List Birth) (b : Birth) (g : ShardGroup)
      → spawn_all token (bs ++ b ∷ []) g ≡ spawn token b (spawn_all token bs g)
  unfolding spawn_all
  spawn_all-append [] b g = refl
  spawn_all-append (c ∷ bs) b g = spawn_all-append bs b (spawn token c g)

  -- The group is what the shards written so far make of it, in the order of their writes, and each
  -- birth has been written or is pending.
  record Inv (births : List Birth) (g : ShardGroup) (s : System Room SpawnPc) : Type 0 where
    order : List Birth
    made : s.shared.group ≡ spawn_all token order g
    covers : Permᴰ (order ++ pending s.pcs) births

  -- What a move does: nothing to the group and the pending shards, or one pending shard is written.
  data Effect (r r' : Room) (p p' : SpawnPc) : Type 0 where
    silent : r'.group ≡ r.group → pending (p' ∷ []) ≡ pending (p ∷ []) → Effect r r' p p'
    writes :
        (b : Birth)
        → r'.group ≡ spawn token b r.group
        → pending (p ∷ []) ≡ b ∷ []
        → pending (p' ∷ []) ≡ []
        → Effect r r' p p'

  Move-Effect : {r r' : Room} {p p' : SpawnPc} → SpawnMove token r p r' p' → Effect r r' p p'
  unfolding pending note_error wait_for_ready
  Move-Effect (locks e) = silent refl refl
  Move-Effect (stores {b}) = writes b (sym (spawn-store_shard b _)) refl refl
  Move-Effect unlocks = silent refl refl
  Move-Effect looks = silent refl refl

  pending-pick :
      (ps before after : List SpawnPc) (p : SpawnPc)
      → ps ≡ before ++ p ∷ after
      → pending ps ≡ pending before ++ (pending (p ∷ []) ++ pending after)
  pending-pick ps before after p e =
      ap pending e
      ∙ pending-append before (p ∷ after)
      ∙ ap (λ l. pending before ++ l) (pending-append (p ∷ []) after)

  -- The shard that has been written moves to the end of the order.
  moved :
      (order ps qs : List Birth) (b : Birth)
      → Permᴰ (order ++ b ∷ [] ++ (ps ++ qs)) (order ++ (ps ++ (b ∷ [] ++ qs)))
  moved order ps qs b =
      rw (append_assoc order (b ∷ []) (ps ++ qs))
        (Permᴰ.append_left order (Permᴰ.symm (Permᴰ.middle b ps qs)))

  Step-Inv :
      {births : List Birth} {g : ShardGroup} {s t : System Room SpawnPc}
      → Step (SpawnMove token) s t
      → Inv births g s
      → Inv births g t
  Step-Inv {births} {g} {s} {t} (pick before after {p} {p'} e mv e') v = elim (Move-Effect mv) [
    | silent same kept ↦ record {
      order = v.order;
      made = same ∙ v.made;
      covers =
          rw
            (pending-pick t.pcs before after p' e', kept, sym (pending-pick s.pcs before after p e))
            v.covers;
    }
    | writes b stored_now was none_now ↦ record {
      order = v.order ++ b ∷ [];
      made = stored_now ∙ ap (spawn token b) v.made ∙ sym (spawn_all-append v.order b g);
      covers =
          rw (pending-pick t.pcs before after p' e', none_now)
            (Permᴰ.trans (moved v.order (pending before) (pending after) b) (
              subst (λ l. Permᴰ (v.order ++ l) births)
                (pending-pick s.pcs before after p e
                  ∙ ap (λ l. pending before ++ (l ++ pending after)) was)
                v.covers));
    }
  ]

  Steps-Inv :
      {births : List Birth} {g : ShardGroup} {s t : System Room SpawnPc}
      → Steps (SpawnMove token) s t
      → Inv births g s
      → Inv births g t
  Steps-Inv here v = v
  Steps-Inv (later r st) v = Step-Inv st (Steps-Inv r v)

  Reach-Inv :
      {births : List Birth} {g : ShardGroup} {s : System Room SpawnPc}
      → SpawnReach token births g s
      → Inv births g s
  unfolding spawn_all
  Reach-Inv {births} {g} (runs r) =
      Steps-Inv r
        (record { order = []; made = refl; covers = rw (pending-map births) (Permᴰ.refl births) })

  finished-pending : (pcs : List SpawnPc) → All IsFinished pcs → pending pcs ≡ []
  unfolding pending
  finished-pending [] h = refl
  finished-pending (starting b ∷ pcs) h = absurd h.0
  finished-pending (storing b ∷ pcs) h = absurd h.0
  finished-pending (stored b ∷ pcs) h = absurd h.0
  finished-pending (looking b ∷ pcs) h = absurd h.0
  finished-pending (finished s ∷ pcs) h = finished-pending pcs h.1

  -- However the goroutines of Start are interleaved, at the mutex of the group and at the uses of its
  -- map, once all of them have finished the group has the same shard under every id, and is the same
  -- otherwise, as if they had run one after the other, provided that they spawn shards of
  -- distinct ids.
  pub interleaved-IsSame :
      {births : List Birth} {g : ShardGroup} {s : System Room SpawnPc}
      → Distinct births
      → SpawnReach token births g s
      → All IsFinished s.pcs
      → IsSame (spawn_all token births g) s.shared.group
  interleaved-IsSame {births} {g} {s} apart r done =
      let v = Reach-Inv r in
      rw v.made (
        spawn_all_reordered token
          (Permᴰ.trans
            (Permᴰ.symm
              (subst (λ l. Permᴰ (v.order ++ l) births) (finished-pending s.pcs done) v.covers))
            (Permᴰ.append-nil v.order))
          g apart)
