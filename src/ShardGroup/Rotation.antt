-- ===== src/ShardGroup/Rotation.antt =====
-- gateway/shard_group.go, Start and Scale: which group takes the place of which.
use sandwich_producer.Base.{
  ℕ, ℤ, pos, ◌+◌, ◌%◌, ◌^◌, ◌<◌, ◌≡◌, ◌≢◌, refl, ap, ◌∙◌, List, [], ◌∷◌, ◌++◌, Option, none, some,
  String, arith, GoError, ret, ◌>>=◌, length, length-append, length-set, get_elem?, set,
  get_elem?-set_ne, get_elem?-set_self, All, get_elem?-append, get_elem?-append_last, get, put,
  delete, int_key, wrap64-+ℤ, pos-rem_ℤ,
}
use sandwich_producer.Identify.{go_rem}
use sandwich_producer.ShardGroup.{
  ShardGroup, Registry, Clocks, born, new_shard_group, spawn_all, stop, stop_key, retire, register,
  rotate, start, conclude, scale,
}
use sandwich_producer.ShardGroup.Spawning.{spawn_all_keeps, HasNew, spawn_all-HasNew}

-- After `k` starts, the last of them of the group at `latest`.
pub record Holds (k latest : ℕ) (r : Registry) : Type 0 where
  pub two_places : r.max_shard_groups ≡ pos 2
  pub counted : r.shard_groups_counter ≡ pos k
  pub current : 0 < k → get (pos (k % 2)) r.shard_groups ≡ some latest
  pub in_heap : 0 < k → latest < length r.groups
  pub only : (j : ℤ) → j ≢ pos 0 → j ≢ pos 1 → get j r.shard_groups ≡ none

-- A group of the given ids and count that has a new shard for each of the goroutines that spawned one.
abbrev pub IsStarted : String → List ℤ → ℤ → ShardGroup → Type 0
IsStarted token ids count g =
    (g.shard_ids ≡ ids) × (g.shard_count ≡ count) × All (λ id. HasNew token id g) ids

-- A registry of two places after `k` starts.
abbrev pub after_starts : ℕ → List ShardGroup → List (ℤ × ℕ) → Registry
after_starts k groups places = record {
  groups = groups;
  shard_groups = places;
  shard_groups_counter = pos k;
  max_shard_groups = pos 2;
}

go_rem_two : (k : ℕ) → go_rem (pos k) (pos 2) ≡ ret (pos (k % 2))
unfolding go_rem
go_rem_two k = rw (pos-rem_ℤ k 2)

module _ (replies : ℤ → Option GoError) (groups : List ShardGroup) (places : List (ℤ × ℕ)) where
  register_lem :
      (a k : ℕ)
      → k + 1 < 2 ^ 63
      → register a (after_starts k groups places)
        ≡ ret (after_starts (k + 1) groups (put (pos ((k + 1) % 2)) a places))
  unfolding register
  register_lem a k small = rw (wrap64-+ℤ k 1 small, go_rem_two (k + 1), ◌>>=◌)

  -- With an even number of starts no group is stopped.
  retire_even :
      (k : ℕ)
      → retire replies (pos 0) (after_starts k groups places) ≡ ret (after_starts k groups places)
  unfolding retire
  retire_even k = refl

  -- With an odd number the group in place 1 is stopped and taken out.
  retire_odd :
      (k old : ℕ) (g : ShardGroup)
      → get (pos 1) places ≡ some old
      → get_elem? groups old ≡ some g
      → retire replies (pos 1) (after_starts k groups places)
        ≡ ret (after_starts k (set groups old (stop replies g)) (delete (pos 1) places))
  unfolding retire stop_key
  retire_odd k old g here alive = ground arith

module _ (replies : ℤ → Option GoError) (groups : List ShardGroup) (places : List (ℤ × ℕ)) (a k : ℕ)
    (small : k + 1 < 2 ^ 63) where
  pub rotate_even :
      k % 2 ≡ 0
      → rotate replies a (after_starts k groups places)
        ≡ ret (after_starts (k + 1) groups (put (pos 1) a places))
  unfolding rotate
  rotate_even even = rw (
    go_rem_two k,
    even,
    ◌>>=◌,
    retire_even replies groups places k,
    register_lem replies groups places a k small,
    odd,
  )
    where
      odd : (k + 1) % 2 ≡ 1
      odd = omega arith

  pub rotate_odd :
      (old : ℕ) (g : ShardGroup)
      → k % 2 ≡ 1
      → get (pos 1) places ≡ some old
      → get_elem? groups old ≡ some g
      → rotate replies a (after_starts k groups places)
        ≡ ret (
            after_starts
              (k + 1)
              (set groups old (stop replies g))
              (put (pos 0) a (delete (pos 1) places)))
  unfolding rotate
  rotate_odd old g odd here alive = rw (
    go_rem_two k,
    odd,
    ◌>>=◌,
    retire_odd replies groups places k old g here alive,
    register_lem replies (set groups old (stop replies g)) (delete (pos 1) places) a k small,
    even,
  )
    where
      even : (k + 1) % 2 ≡ 0
      even = omega arith

All-born :
    (clocks : Clocks) (P : ℤ → Type 0) (ids : List ℤ)
    → All (λ b. P b.shard_id) (born clocks ids)
    → All P ids
unfolding born
All-born clocks P [] h = tt
All-born clocks P (id ∷ ids) h = (h.0, All-born clocks P ids h.1)

module _ (token : String) (clocks : Clocks) where
  -- A group after its shards have been spawned.
  pub started : ShardGroup → ShardGroup
  started g = spawn_all token (born clocks g.shard_ids) (record g { err = none })

  start_lem :
      (replies : ℤ → Option GoError) (a : ℕ) (r : Registry) (g : ShardGroup)
      → get_elem? r.groups a ≡ some g
      → start token clocks replies a r ≡ (
          rotate replies a (record r { groups = set r.groups a (started g) }) >>= λ r'.
          ret (none, r'))
  unfolding start started conclude
  start_lem replies a r g e =
      rw (start, e)
        (ap
          (conclude replies a (spawn_all token (born clocks g.shard_ids) (record g { err = none }))
            (record r {
              groups =
                  set r.groups a
                    (spawn_all token (born clocks g.shard_ids) (record g { err = none }));
            }))
          (spawn_all_keeps token (born clocks g.shard_ids) (record g { err = none })).0)

  module _ (ids : List ℤ) (count : ℤ) (groups : List ShardGroup) where
    -- The groups after the new one has been made and has spawned its shards.
    pub grown : List ShardGroup
    grown =
        set (groups ++ new_shard_group ids count ∷ []) (length groups)
          (started (new_shard_group ids count))

    pub length-grown : length grown ≡ length groups + 1
    unfolding grown
    length-grown = omega (
      arith,
      length-set (groups ++ new_shard_group ids count ∷ []) (length groups)
          (started (new_shard_group ids count)),
      length-append groups (new_shard_group ids count ∷ []),
    )

    pub get_elem?-grown : (a : ℕ) → a < length groups → get_elem? grown a ≡ get_elem? groups a
    unfolding grown
    get_elem?-grown a h =
        get_elem?-set_ne (groups ++ new_shard_group ids count ∷ []) (length groups) a
          (started (new_shard_group ids count)) (omega arith)
        ∙ get_elem?-append groups (new_shard_group ids count ∷ []) a h

    pub get_elem?-grown_last :
        get_elem? grown (length groups) ≡ some (started (new_shard_group ids count))
    unfolding grown
    get_elem?-grown_last =
        get_elem?-set_self (groups ++ new_shard_group ids count ∷ []) (length groups)
          (started (new_shard_group ids count))
          (omega (arith, length-append groups (new_shard_group ids count ∷ [])))

    pub started-IsStarted : IsStarted token ids count (started (new_shard_group ids count))
    unfolding started new_shard_group
    started-IsStarted =
        let (_, counted, given) =
          spawn_all_keeps token (born clocks ids)
            (record (new_shard_group ids count) { err = none }) in
        (
          given,
          counted,
          All-born clocks
              (λ id. HasNew token id (
                spawn_all token (born clocks ids)
                  (record (new_shard_group ids count) { err = none })))
              ids
              (spawn_all-HasNew token (born clocks ids)
                (record (new_shard_group ids count) { err = none })),
        )

    pub scale_lem :
        (replies : ℤ → Option GoError) (places : List (ℤ × ℕ)) (k : ℕ)
        → scale token clocks replies ids count (after_starts k groups places)
          ≡ (rotate replies (length groups) (after_starts k grown places) >>= λ r'. ret (none, r'))
    unfolding scale grown
    scale_lem replies places k =
        start_lem replies (length groups)
          (after_starts k (groups ++ new_shard_group ids count ∷ []) places)
          (new_shard_group ids count) (get_elem?-append_last groups (new_shard_group ids count))
