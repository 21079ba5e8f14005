-- ===== src/Limiter/Duration/Overdraft.antt =====
-- gateway/limiter.go, DefaultLimiter.Lock with several goroutines: how many slots it can give too many.
use sandwich_producer.Base.{
  ℕ, zero, suc, ℤ, pos, negsuc, pos_part, neg_part, ◌+◌, ◌<◌, ◌≤◌, ◌^◌, ◌≡◌, refl, ◌-ℤ◌, wrap32,
  List, [], ◌∷◌, arith, System, Step, pick, Steps, here, later, length, total, total-pick,
  length-pick,
}
use sandwich_producer.Limiter.Duration.{
  new_duration_limiter, DefaultLimiter, store_resets_at, store_available, take_slot,
}
use sandwich_producer.Limiter.Duration.Race.{
  LockPc, begin, clocked, resetting, testing, passing, locked, LockMove, reads_clock, renews, keeps,
  fills, retries, admits, takes, leaves,
}

-- The goroutine has seen a slot and not yet taken it.
abbrev in_passing : LockPc → ℕ
in_passing passing = 1
in_passing _ = 0

-- A limiter of `n` slots between the moves of `others` goroutines and one more, of which `p` of the
-- others, and `q` of the one, have seen a slot.
record Covers (n others p q : ℕ) (l : DefaultLimiter) : Type 0 where
  limited : l.limit ≡ pos n
  upper : pos_part l.available ≤ n
  lower : neg_part l.available + p + q ≤ others + pos_part l.available

-- One slot less.
take_slot_parts :
    (x : ℤ)
    → pos_part x < 2 ^ 31
    → neg_part x + 1 < 2 ^ 31
    → (neg_part (wrap32 (x -ℤ pos 1)) + pos_part x
        ≡ pos_part (wrap32 (x -ℤ pos 1)) + neg_part x + 1)
      × (pos_part (wrap32 (x -ℤ pos 1)) ≤ pos_part x)
unfolding wrap32 ◌-ℤ◌
take_slot_parts (pos zero) h k = ground arith
take_slot_parts (pos (suc n)) h k = ground arith
take_slot_parts (negsuc n) h k = ground arith

Move-Covers :
    (n others p : ℕ) {l l' : DefaultLimiter} {pc pc' : LockPc}
    → LockMove l pc l' pc'
    → 0 < n
    → n < 2 ^ 31
    → others + 1 < 2 ^ 31
    → p ≤ others
    → Covers n others p (in_passing pc) l
    → Covers n others p (in_passing pc') l'
unfolding store_resets_at store_available take_slot ◌-ℤ◌ wrap32
Move-Covers n others p reads_clock positive small few h v = v
Move-Covers n others p (renews e) positive small few h v = record {
  limited = v.limited;
  upper = v.upper;
  lower = v.lower;
}
Move-Covers n others p (keeps e) positive small few h v = v
Move-Covers n others p fills positive small few h v = record {
  limited = v.limited;
  upper = ground (arith, v.limited);
  lower = ground (arith, v.limited);
}
Move-Covers n others p (retries e) positive small few h v = v
Move-Covers n others p (admits e) positive small few h v = record {
  limited = v.limited;
  upper = v.upper;
  lower = ground arith;
}
Move-Covers n others p {l = l} takes positive small few h v = record {
  limited = v.limited;
  upper = omega (arith, v.upper, parts.1);
  lower = omega (arith, v.lower, parts.0);
}
  where
    parts :
        (neg_part (take_slot l).available + pos_part l.available
          ≡ pos_part (take_slot l).available + neg_part l.available + 1)
        × (pos_part (take_slot l).available ≤ pos_part l.available)
    parts = take_slot_parts l.available (omega (arith, v.upper)) (ground (arith, v.lower))
Move-Covers n others p leaves positive small few h v = v

in_passing-total : (pcs : List LockPc) → total in_passing pcs ≤ length pcs
in_passing-total [] = omega arith
in_passing-total (begin ∷ pcs) = omega (arith, in_passing-total pcs)
in_passing-total (clocked now ∷ pcs) = omega (arith, in_passing-total pcs)
in_passing-total (resetting ∷ pcs) = omega (arith, in_passing-total pcs)
in_passing-total (testing ∷ pcs) = omega (arith, in_passing-total pcs)
in_passing-total (passing ∷ pcs) = omega (arith, in_passing-total pcs)
in_passing-total (locked ∷ pcs) = omega (arith, in_passing-total pcs)

-- A limiter of `n` slots that `k + 1` goroutines use.
record Inv (n k : ℕ) (s : System DefaultLimiter LockPc) : Type 0 where
  crew : length s.pcs ≡ k + 1
  covers : Covers n k (total in_passing s.pcs) 0 s.shared

module _ (n k : ℕ) (positive : 0 < n) (small : n < 2 ^ 31) (few : k + 1 < 2 ^ 31) where
  Step-Inv : {s t : System DefaultLimiter LockPc} → Step LockMove s t → Inv n k s → Inv n k t
  Step-Inv {s} {t} (pick before after {p} {p'} e mv e') v = record {
    crew =
        omega
          (arith, v.crew, length-pick s.pcs before after p e, length-pick t.pcs before after p' e');
    covers = record {
      limited = Covers.limited moved;
      upper = Covers.upper moved;
      lower = omega (arith, Covers.lower moved, total-pick in_passing t.pcs before after p' e');
    };
  }
    where
      others : ℕ
      others = total in_passing before + total in_passing after

      moved : Covers n k others (in_passing p') t.shared
      moved =
          Move-Covers n k others mv positive small few
            (omega (
              arith,
              v.crew,
              length-pick s.pcs before after p e,
              in_passing-total before,
              in_passing-total after,
            ))
            (record {
              limited = v.covers.limited;
              upper = v.covers.upper;
              lower = omega (arith, v.covers.lower, total-pick in_passing s.pcs before after p e);
            })

  Steps-Inv : {s t : System DefaultLimiter LockPc} → Steps LockMove s t → Inv n k s → Inv n k t
  Steps-Inv here v = v
  Steps-Inv (later r st) v = Step-Inv st (Steps-Inv r v)

-- `k` goroutines before their first call of Lock.
abbrev pub all_begin : ℕ → List LockPc
all_begin zero = []
all_begin (suc k) = begin ∷ all_begin k

length-all_begin : (k : ℕ) → length (all_begin k) ≡ k
length-all_begin zero = refl
length-all_begin (suc k) = omega (arith, length-all_begin k)

none_passing : (k : ℕ) → total in_passing (all_begin k) ≡ 0
none_passing zero = refl
none_passing (suc k) = omega (arith, none_passing k)

-- However `k + 1` goroutines interleave, and however often each calls Lock, the available slots of a
-- limiter that was made with a positive limit never go below -k, and never above the limit.
pub lock_overdraft :
    (n k : ℕ) (duration : ℤ) {s : System DefaultLimiter LockPc}
    → 0 < n
    → n < 2 ^ 31
    → k + 1 < 2 ^ 31
    → Steps LockMove
        (record { shared = new_duration_limiter (pos n) duration; pcs = all_begin (k + 1) })
        s
    → (neg_part s.shared.available ≤ k) × (pos_part s.shared.available ≤ n)
unfolding new_duration_limiter
lock_overdraft n k duration positive small few steps =
    let v = Steps-Inv n k positive small few steps (record {
      crew = length-all_begin (k + 1);
      covers = record {
        limited = refl;
        upper = omega arith;
        lower = omega (arith, none_passing (k + 1));
      };
    }) in
    (ground (arith, v.covers.lower), v.covers.upper)
