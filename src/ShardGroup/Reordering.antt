-- ===== src/ShardGroup/Reordering.antt =====
-- gateway/shard_group.go, Start: the order in which its goroutines run.
use mathlib.Core.List.{Permᴰ}
use mathlib.Core.Path.{subst}
use sandwich_producer.Base.{
  ℤ, ◌≡◌, ◌≢◌, refl, sym, ◌∙◌, List, [], ◌∷◌, String, arith, All, get, put, get-put, int_key,
  eqb_ℤ_iff,
}
use sandwich_producer.ShardGroup.{ShardGroup, Birth, new_shard, spawn, spawn_all}

-- No two goroutines spawn a shard of the same id.
abbrev pub Distinct : List Birth → Type 0
Distinct [] = Unit
Distinct (b ∷ births) = All (λ (c : Birth). b.shard_id ≢ c.shard_id) births × Distinct births

-- The groups have the same shard under every id, and agree in all else.
pub record IsSame (g h : ShardGroup) : Type 0 where
  pub same_scaling : g.scaling ≡ h.scaling
  pub same_count : g.shard_count ≡ h.shard_count
  pub same_ids : g.shard_ids ≡ h.shard_ids
  pub same_shards : (id : ℤ) → get id g.shards ≡ get id h.shards
  pub same_err : g.err ≡ h.err

IsSame-refl : (g : ShardGroup) → IsSame g g
IsSame-refl g = record {
  same_scaling = refl;
  same_count = refl;
  same_ids = refl;
  same_shards = λ id. refl;
  same_err = refl;
}

All-reordered : (P : Birth → Type 0) {bs cs : List Birth} → Permᴰ bs cs → All P bs → All P cs
All-reordered P Permᴰ.nil h = h
All-reordered P (Permᴰ.cons e d) h = (rw (sym e) h.0, All-reordered P d h.1)
All-reordered P (Permᴰ.swap e f) h = (rw (sym f) h.1.0, (rw (sym e) h.0, h.1.1))
All-reordered P (Permᴰ.trans d d') h = All-reordered P d' (All-reordered P d h)

Distinct-reordered : {bs cs : List Birth} → Permᴰ bs cs → Distinct bs → Distinct cs
Distinct-reordered Permᴰ.nil h = h
Distinct-reordered (Permᴰ.cons {a = a} {b = b} {l₂ = cs} e d) h = (
  rw (sym e) (All-reordered (λ (c : Birth). a.shard_id ≢ c.shard_id) d h.0),
  Distinct-reordered d h.1,
)
Distinct-reordered (Permᴰ.swap {a = b} {b = c} {b' = d} {l = births} e f) h =
    subst (λ x. Distinct (x ∷ d ∷ births)) f
      (subst (λ x. Distinct (c ∷ x ∷ births)) e
        (((λ same. h.0.0 (sym same)), h.1.0), (h.0.1, h.1.1)))
Distinct-reordered (Permᴰ.trans d d') h = Distinct-reordered d' (Distinct-reordered d h)

module _ (token : String) where
  spawn-IsSame :
      (b : Birth) {g h : ShardGroup} → IsSame g h → IsSame (spawn token b g) (spawn token b h)
  unfolding spawn new_shard
  spawn-IsSame b {g} {h} s = record {
    same_scaling = s.same_scaling;
    same_count = s.same_count;
    same_ids = s.same_ids;
    same_shards = λ id. ground (
      arith,
      get-put b.shard_id id (new_shard token g b) g.shards,
      get-put b.shard_id id (new_shard token h b) h.shards,
      s.same_shards id,
      s.same_count,
    );
    same_err = s.same_err;
  }

  spawn-swap :
      (b c : Birth) (g : ShardGroup)
      → b.shard_id ≢ c.shard_id
      → IsSame (spawn token c (spawn token b g)) (spawn token b (spawn token c g))
  unfolding spawn new_shard
  spawn-swap b c g apart = record {
    same_scaling = refl;
    same_count = refl;
    same_ids = refl;
    same_shards = λ id. ground (
      arith,
      get-put b.shard_id id (new_shard token g b) g.shards,
      get-put c.shard_id id (new_shard token g c) g.shards,
      get-put b.shard_id id (new_shard token g b) (put c.shard_id (new_shard token g c) g.shards),
      get-put c.shard_id id (new_shard token g c) (put b.shard_id (new_shard token g b) g.shards),
      eqb_ℤ_iff b.shard_id id,
      eqb_ℤ_iff c.shard_id id,
    );
    same_err = refl;
  }

  spawn_all-IsSame :
      (births : List Birth) {g h : ShardGroup}
      → IsSame g h
      → IsSame (spawn_all token births g) (spawn_all token births h)
  unfolding spawn_all
  spawn_all-IsSame [] s = s
  spawn_all-IsSame (b ∷ births) s = spawn_all-IsSame births (spawn-IsSame b s)

  IsSame-trans : {f g h : ShardGroup} → IsSame f g → IsSame g h → IsSame f h
  IsSame-trans s t = record {
    same_scaling = s.same_scaling ∙ t.same_scaling;
    same_count = s.same_count ∙ t.same_count;
    same_ids = s.same_ids ∙ t.same_ids;
    same_shards = λ id. s.same_shards id ∙ t.same_shards id;
    same_err = s.same_err ∙ t.same_err;
  }

  -- The order in which the goroutines of Start run makes no difference: if they spawn shards of
  -- distinct ids, any two orders leave the same shard under every id, and the same group otherwise.
  pub spawn_all_reordered :
      {births others : List Birth} (order : Permᴰ births others) (g : ShardGroup)
      → Distinct births
      → IsSame (spawn_all token births g) (spawn_all token others g)
  unfolding spawn_all
  spawn_all_reordered Permᴰ.nil g h = IsSame-refl g
  spawn_all_reordered (Permᴰ.cons {a = b} e d) g h =
      rw (sym e) (spawn_all_reordered d (spawn token b g) h.1)
  spawn_all_reordered (Permᴰ.swap {a = b} {b = c} {l = births} e f) g h =
      rw (sym e, sym f) (spawn_all-IsSame births (spawn-swap b c g h.0.0))
  spawn_all_reordered (Permᴰ.trans {l₂ = between} d d') g h =
      IsSame-trans (spawn_all_reordered d g h) (spawn_all_reordered d' g (Distinct-reordered d h))
