-- ===== src/ShardGroup/Succession.antt =====
-- gateway/shard_group.go: what Scale does to the group that was started before.
use sandwich_producer.Base.{
  ℕ, ℤ, pos, ◌+◌, ◌%◌, ◌^◌, ◌<◌, ◌≡◌, ◌≢◌, refl, ap, sym, ◌∙◌, ◌⊎◌, inl, inr, eqb_ℤ_iff, List,
  Option, none, some, String, arith, GoError, Returns, ◌>>=◌, length, length-set, get_elem?,
  get_elem?-set_self, get_elem?-set_ne, get, put, delete, get-put, get-put_self, get-put_ne,
  get-delete, int_key, eqb_ℤ, Bool, get_elem?-lt, if◌then◌else◌, ◌==◌,
}
use mathlib.Core.Path.{subst}
use sandwich_producer.ShardGroup.{ShardGroup, Registry, Clocks, stop, scale}
use sandwich_producer.ShardGroup.Rotation.{
  Holds, after_starts, rotate_even, rotate_odd, grown, length-grown, get_elem?-grown,
  get_elem?-grown_last, started-IsStarted, IsStarted, scale_lem,
}

-- What becomes of the latest group when the next one has started.
abbrev pub succeeded : ℕ → (ℤ → Option GoError) → ShardGroup → ShardGroup
succeeded k replies g = if k % 2 == 0 then g else stop replies g

-- What Scale returns, from `k` starts on: the new group is the latest, and the one before it is
-- stopped if `k` is odd and left as it is if `k` is even.
pub record Scaled (token : String) (ids : List ℤ) (count : ℤ) (replies : ℤ → Option GoError)
    (k latest : ℕ) (r : Registry) (x : Option GoError × Registry) : Type 0 where
  pub no_error : x.0 ≡ none
  pub holds : Holds (k + 1) (length r.groups) x.1
  pub newest :
      (g : ShardGroup) × (get_elem? x.1.groups (length r.groups) ≡ some g)
      × IsStarted token ids count g
  pub before :
      (g : ShardGroup)
      → 0 < k
      → get_elem? r.groups latest ≡ some g
      → get_elem? x.1.groups latest ≡ some (succeeded k replies g)
  pub others :
      (a : ℕ) → a < length r.groups → a ≢ latest → get_elem? x.1.groups a ≡ get_elem? r.groups a
  pub sole : k % 2 ≡ 1 → (j : ℤ) (a : ℕ) → get j x.1.shard_groups ≡ some a → a ≡ length r.groups

pub parity : (k : ℕ) → (k % 2 ≡ 0) ⊎ (k % 2 ≡ 1)
parity k = omega arith

if-same : (b : Bool) → ◌≡◌ {A = Option ℕ} (if b then none else none) none
if-same b = ground arith

module _ (token : String) (clocks : Clocks) (replies : ℤ → Option GoError) (ids : List ℤ)
    (count : ℤ) (latest k : ℕ) (r : Registry) (small : k + 1 < 2 ^ 63) (h : Holds k latest r) where
  scale_even :
      k % 2 ≡ 0
      → Returns
          (Scaled token ids count replies k latest r)
          (scale token clocks replies ids count (after_starts k r.groups r.shard_groups))
  scale_even even =
      rw
        (
          scale_lem token clocks ids count r.groups replies r.shard_groups k,
          rotate_even replies (grown token clocks ids count r.groups) r.shard_groups
              (length r.groups) k small even,
          ◌>>=◌,
        )
        (record {
          no_error = refl;
          holds = record {
            two_places = refl;
            counted = refl;
            current = λ _. rw odd (get-put_self (pos 1) (length r.groups) r.shard_groups);
            in_heap = λ _. omega (arith, length-grown token clocks ids count r.groups);
            only = λ j j≢0 j≢1.
                get-put_ne (pos 1) j (length r.groups) r.shard_groups (λ e. j≢1 (sym e))
                ∙ h.only j j≢0 j≢1;
          };
          newest = (
            _,
            get_elem?-grown_last token clocks ids count r.groups,
            started-IsStarted token clocks ids count r.groups,
          );
          before = λ g started e.
              get_elem?-grown token clocks ids count r.groups latest (h.in_heap started)
              ∙ ground arith;
          others = λ a lt _. get_elem?-grown token clocks ids count r.groups a lt;
          sole = λ is_odd. absurd (omega arith);
        })
    where
      odd : (k + 1) % 2 ≡ 1
      odd = omega arith

  module _ (g : ShardGroup) (odd : k % 2 ≡ 1) (alive : get_elem? r.groups latest ≡ some g) where
    still_alive : get_elem? (grown token clocks ids count r.groups) latest ≡ some g
    still_alive =
        get_elem?-grown token clocks ids count r.groups latest (h.in_heap (omega arith)) ∙ alive

    scale_odd :
        Returns
          (Scaled token ids count replies k latest r)
          (scale token clocks replies ids count (after_starts k r.groups r.shard_groups))
    scale_odd =
        rw
          (
            scale_lem token clocks ids count r.groups replies r.shard_groups k,
            rotate_odd replies (grown token clocks ids count r.groups) r.shard_groups
                (length r.groups) k small latest g odd here still_alive,
            ◌>>=◌,
          )
          (record {
            no_error = refl;
            holds = record {
              two_places = refl;
              counted = refl;
              current = λ _.
                  rw even (get-put_self (pos 0) (length r.groups) (delete (pos 1) r.shard_groups));
              in_heap = λ _. omega (
                arith,
                length-grown token clocks ids count r.groups,
                length-set (grown token clocks ids count r.groups) latest (stop replies g),
              );
              only = λ j j≢0 j≢1.
                  get-put_ne (pos 0) j (length r.groups) (delete (pos 1) r.shard_groups)
                    (λ e. j≢0 (sym e))
                  ∙ get-delete (pos 1) j r.shard_groups
                  ∙ rw (h.only j j≢0 j≢1) (if-same (eqb_ℤ (pos 1) j));
            };
            newest = (
              _,
              get_elem?-set_ne (grown token clocks ids count r.groups) latest (length r.groups)
                    (stop replies g) (λ e. omega (arith, h.in_heap (omega arith)))
                  ∙ get_elem?-grown_last token clocks ids count r.groups,
              started-IsStarted token clocks ids count r.groups,
            );
            before = λ g' started e.
                get_elem?-set_self (grown token clocks ids count r.groups) latest (stop replies g)
                  (omega (arith, h.in_heap started, length-grown token clocks ids count r.groups))
                ∙ ground arith;
            others = λ a lt ne.
                get_elem?-set_ne (grown token clocks ids count r.groups) latest a (stop replies g)
                  (λ e. ne (sym e))
                ∙ get_elem?-grown token clocks ids count r.groups a lt;
            sole = λ _ j a e. alone j a e;
          })
      where
        even : (k + 1) % 2 ≡ 0
        even = omega arith

        alone :
            (j : ℤ) (a : ℕ)
            → get j (put (pos 0) (length r.groups) (delete (pos 1) r.shard_groups)) ≡ some a
            → a ≡ length r.groups
        alone j a e = ground (
          arith,
          get-put (pos 0) j (length r.groups) (delete (pos 1) r.shard_groups),
          get-delete (pos 1) j r.shard_groups,
          eqb_ℤ_iff (pos 0) j,
          eqb_ℤ_iff (pos 1) j,
          h.only j,
        )

        here : get (pos 1) r.shard_groups ≡ some latest
        here = ap (λ (i : ℕ). get (pos i) r.shard_groups) (sym odd) ∙ h.current (omega arith)

  normal : r ≡ after_starts k r.groups r.shard_groups
  normal = ground (arith, h.two_places, h.counted)

  -- Scale succeeds on every registry that `k` starts have left, and leaves one that `k + 1` have
  -- left, with the new group as the latest: the map lookup in Start never meets a missing group. The
  -- new group has the ids and the count that Scale was given, and a new shard for each of the ids.
  -- The group before it is stopped if `k` is odd and left as it was if `k` is even, and
  -- every other group is left as it was.
  pub scale-Scaled :
      Returns (Scaled token ids count replies k latest r) (scale token clocks replies ids count r)
  scale-Scaled =
      subst
        (λ x.
          Returns (Scaled token ids count replies k latest r)
            (scale token clocks replies ids count x))
        (sym normal)
        (elim (parity k) [
          | inl even ↦ scale_even even
          | inr odd ↦
              let (g, alive) = get_elem?-lt r.groups latest (h.in_heap (omega arith)) in
              scale_odd g odd alive
        ])
