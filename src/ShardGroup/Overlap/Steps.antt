-- ===== src/ShardGroup/Overlap/Steps.antt =====
-- gateway/manager.go: what one step of a call of Scale keeps, of calls that overlap.
use sandwich_producer.Base.{
  sym, set, length-set, ℤ, ℕ, suc, ◌+◌, ◌^◌, ◌≡◌, ◌<◌, refl, ap, ◌∙◌, inl, List, [], ◌∷◌, ◌++◌,
  Option, none, some, String, arith, GoError, ret, All, All-mono, All-zip, All-pick, pick-All,
  total-zero, length-pick, System, total, total-pick, length, length-append, get_elem?,
  get_elem?-append_last, int_key,
}
use mathlib.Core.Path.{subst}
use sandwich_producer.ShardGroup.{ShardGroup, Registry, conclude}
use sandwich_producer.ShardGroup.Rotation.{after_starts}
use sandwich_producer.ShardGroup.Overlap.{
  Scaling, spawned_group, Runs, lived, ScalePc, living, called, spawned, returned,
}
use sandwich_producer.ShardGroup.Overlap.Places.{
  placed, Lived, Lived-new, Lived-err, Keeps, Keeps-append, Keeps-ran, Leaves, Leaves-mono,
}
use sandwich_producer.ShardGroup.Overlap.Turns.{Turned, turned}
use sandwich_producer.ShardGroup.Overlap.Calls.{
  made, is_over, PcOk, Overlapped, is_over-le, occurs-bound, PcOk-kept, PcOk-turned,
}

module _ (token : String) (runs : Runs) (replies : ℤ → Option GoError) where
  module _ (s : System Registry ScalePc) (ps before after : List ScalePc)
      (v : Overlapped token runs replies s) where
    -- The shards of a group run.
    pub ran-Overlapped :
        (i a : ℕ) (g : ShardGroup)
        → get_elem? s.shared.groups a ≡ some g
        → s.pcs ≡ before ++ living ∷ after
        → ps ≡ before ++ living ∷ after
        → Overlapped token runs replies (record {
          shared = record s.shared { groups = set s.shared.groups a (lived runs i g) };
          pcs = ps;
        })
    ran-Overlapped i a g here e e' =
        let (front, _, rest) =
          All-pick (PcOk token runs replies s.shared.groups v.order) s.pcs before after living e
            v.pcs in
        record {
          order = v.order;
          registry = ap (λ (r : Registry). record r { groups = groups' }) v.registry;
          leaves =
              Leaves-mono token runs replies s.shared.groups groups' (length v.order) v.order keeps
                v.leaves;
          once = v.once;
          pcs =
              pick-All (PcOk token runs replies groups' v.order) ps before after living e'
                (All-mono _ _ before
                  (PcOk-kept token runs replies s.shared.groups groups' v.order keeps) front)
                tt
                (All-mono _ _ after
                  (PcOk-kept token runs replies s.shared.groups groups' v.order keeps) rest);
          unique = λ c. omega (
            arith,
            v.unique c,
            total-pick (made c) s.pcs before after living e,
            total-pick (made c) ps before after living e',
          );
          bounded = λ c le. omega (
            arith,
            v.bounded c (omega (arith, le, length-set s.shared.groups a (lived runs i g))),
            total-pick (made c) s.pcs before after living e,
            total-pick (made c) ps before after living e',
          );
          over = omega (
            arith,
            v.over,
            total-pick is_over s.pcs before after living e,
            total-pick is_over ps before after living e',
          );
        }
      where
        groups' : List ShardGroup
        groups' = set s.shared.groups a (lived runs i g)

        keeps : Keeps token runs replies s.shared.groups groups'
        keeps = Keeps-ran token runs replies s.shared.groups a i g here

    pub made-Overlapped :
        (q : Scaling)
        → s.pcs ≡ before ++ called q ∷ after
        → ps ≡ before ++ spawned (length s.shared.groups) q ∷ after
        → Overlapped token runs replies (record {
          shared = record s.shared { groups = s.shared.groups ++ spawned_group token q ∷ [] };
          pcs = ps;
        })
    made-Overlapped q e e' =
        let (front, _, rest) =
          All-pick (PcOk token runs replies s.shared.groups v.order) s.pcs before after (called q) e
            v.pcs in
        record {
          order = v.order;
          registry = ap (λ (r : Registry). record r { groups = groups' }) v.registry;
          leaves =
              Leaves-mono token runs replies s.shared.groups groups' (length v.order) v.order keeps
                v.leaves;
          once = v.once;
          pcs =
              pick-All (PcOk token runs replies groups' v.order) ps before after
                (spawned (length s.shared.groups) q) e'
                (All-mono _ _ before
                  (PcOk-kept token runs replies s.shared.groups groups' v.order keeps) front)
                (
                  subst (Lived token runs replies 0 q)
                      (sym (get_elem?-append_last s.shared.groups (spawned_group token q)))
                      (Lived-new token runs replies q),
                  occurs-bound token runs replies s.shared.groups (length v.order)
                      (length s.shared.groups) v.order (omega arith) v.leaves,
                )
                (All-mono _ _ after
                  (PcOk-kept token runs replies s.shared.groups groups' v.order keeps) rest);
          unique = λ a. ground (
            arith,
            v.unique a,
            v.bounded a,
            total-pick (made a) s.pcs before after (called q) e,
            total-pick (made a) ps before after (spawned (length s.shared.groups) q) e',
          );
          bounded = λ a le. ground (
            arith,
            v.bounded a,
            length-append s.shared.groups (spawned_group token q ∷ []),
            total-pick (made a) s.pcs before after (called q) e,
            total-pick (made a) ps before after (spawned (length s.shared.groups) q) e',
          );
          over = omega (
            arith,
            v.over,
            total-pick is_over s.pcs before after (called q) e,
            total-pick is_over ps before after (spawned (length s.shared.groups) q) e',
          );
        }
      where
        groups' : List ShardGroup
        groups' = s.shared.groups ++ spawned_group token q ∷ []

        keeps : Keeps token runs replies s.shared.groups groups'
        keeps = Keeps-append token runs replies s.shared.groups (spawned_group token q ∷ [])

    module _ (small : length s.pcs < 2 ^ 63) (a : ℕ) (q : Scaling) (g : ShardGroup)
        (e : s.pcs ≡ before ++ spawned a q ∷ after)
        (found : get_elem? s.shared.groups a ≡ some g) where
      parts :
          All (PcOk token runs replies s.shared.groups v.order) before
          × PcOk token runs replies s.shared.groups v.order (spawned a q)
          × All (PcOk token runs replies s.shared.groups v.order) after
      parts =
          All-pick (PcOk token runs replies s.shared.groups v.order) s.pcs before after
            (spawned a q) e v.pcs

      pub turn : Turned token runs replies s.shared.groups v.order a q g
      turn =
          turned token runs replies s.shared.groups a q g parts.1.0 v.order
            (omega (
              arith,
              small,
              v.over,
              total-pick is_over s.pcs before after (spawned a q) e,
              length-pick s.pcs before after (spawned a q) e,
              is_over-le before,
              is_over-le after,
            ))
            parts.1.1 v.once v.leaves

      no_error : g.err ≡ none
      no_error =
          Lived-err token runs replies 0 q g (subst (Lived token runs replies 0 q) found parts.1.0)

      pub turn_lem :
          conclude replies a g s.shared g.err
          ≡ ret (none, after_starts (length v.order + 1) turn.groups' (placed ((a, q) ∷ v.order)))
      turn_lem =
          ap (conclude replies a g s.shared) no_error
          ∙ (ap (λ r. conclude replies a g r none) v.registry ∙ turn.concludes)

      others_zero : total (made a) before + total (made a) after ≡ 0
      others_zero =
          ground (arith, v.unique a, total-pick (made a) s.pcs before after (spawned a q) e)

      one_more : length v.order + 1 ≡ suc (length v.order)
      one_more = omega arith

      pub turned-Overlapped :
          ps ≡ before ++ returned a q none ∷ after
          → Overlapped token runs replies (record {
            shared = after_starts (length v.order + 1) turn.groups' (placed ((a, q) ∷ v.order));
            pcs = ps;
          })
      turned-Overlapped e' = record {
        order = (a, q) ∷ v.order;
        registry = ap (λ n. after_starts n turn.groups' (placed ((a, q) ∷ v.order))) one_more;
        leaves =
            subst (λ n. Leaves token runs replies turn.groups' n ((a, q) ∷ v.order)) one_more
              turn.leaves;
        once = λ c. ground (arith, v.once c, parts.1.1);
        pcs =
            pick-All (PcOk token runs replies turn.groups' ((a, q) ∷ v.order)) ps before after
              (returned a q none) e'
              (All-zip _ _ _ before (PcOk-turned token runs replies turn)
                (total-zero (made a) before (omega (arith, others_zero))) parts.0)
              (refl, inl (refl, refl))
              (All-zip _ _ _ after (PcOk-turned token runs replies turn)
                (total-zero (made a) after (omega (arith, others_zero))) parts.2);
        unique = λ c. ground (
          arith,
          v.unique c,
          total-pick (made c) s.pcs before after (spawned a q) e,
          total-pick (made c) ps before after (returned a q none) e',
        );
        bounded = λ c le. ground (
          arith,
          v.bounded c,
          turn.same_length,
          total-pick (made c) s.pcs before after (spawned a q) e,
          total-pick (made c) ps before after (returned a q none) e',
        );
        over = omega (
          arith,
          v.over,
          total-pick is_over s.pcs before after (spawned a q) e,
          total-pick is_over ps before after (returned a q none) e',
        );
      }
