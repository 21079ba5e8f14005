-- ===== src/ClearKeys/Completeness.antt =====
-- gateway/state.go: the script of ClearKeys ends, and deletes what it is to delete.
use sandwich_producer.Base.{
  ℕ, zero, suc, ◌+◌, ◌<◌, ◌≡◌, ◌≢◌, refl, Bool, true, false, ◌&&◌, ◌||◌, not, List, [], ◌∷◌, some,
  String, str_eq, eq_iff, arith, length, All, Bool-cases, inl, inr,
}
use sandwich_producer.ClearKeys.{Redis, elem, delete_found, clear_loop, clear_script}

str_ne : (s t : String) → str_eq s t ≡ false → s ≢ t
str_ne s t e = ground (arith, eq_iff s t)

module _ {Db : Type 0} (redis : Redis Db) (pattern : String) where
  -- An iteration of SCAN from a cursor to its end: the data at each call, and the keys that it gave.
  -- Other commands may change the data between the calls.
  pub data Iteration : String → List (Db × List String) → Type 0 where
    last :
        {cursor : String} {db : Db} {keys : List String}
        → redis.scan cursor pattern 64 db ≡ ("0", keys)
        → Iteration cursor ((db, keys) ∷ [])
    next :
        {cursor cursor' : String} {db : Db} {keys : List String} {calls : List (Db × List String)}
        → redis.scan cursor pattern 64 db ≡ (cursor', keys)
        → cursor' ≢ "0"
        → Iteration cursor' calls
        → Iteration cursor ((db, keys) ∷ calls)

  -- Some call of the iteration gave the key.
  abbrev pub given : String → List (Db × List String) → Bool
  given k [] = false
  given k ((db, keys) ∷ calls) = elem k keys || given k calls

  -- What Redis promises: SCAN gives matching strings only, and a full iteration gives every one that is
  -- there from its start to its end; it ends, since the cursors go through a finite table; DEL deletes
  -- its keys and no others.
  pub record Promises : Type 0 where
    pub sound :
        (cursor : String) (db : Db) (k : String)
        → elem k (redis.scan cursor pattern 64 db).1 ≡ true
        → redis.matches pattern k ≡ true
    pub complete :
        (calls : List (Db × List String)) (k : String)
        → Iteration "0" calls
        → redis.matches pattern k ≡ true
        → All (λ (call : Db × List String). redis.holds_string k call.0 ≡ true) calls
        → given k calls ≡ true
    pub rank : Db → String → ℕ
    pub falls :
        (db : Db) (cursor : String)
        → (redis.scan cursor pattern 64 db).0 ≢ "0"
        → rank
            (delete_found redis (redis.scan cursor pattern 64 db).1 db)
            (redis.scan cursor pattern 64 db).0
          < rank db cursor
    pub deleted :
        (k : String) (keys : List String) (db : Db)
        → redis.holds_string k (redis.del keys db) ≡ (redis.holds_string k db && not (elem k keys))

  -- How many keys the calls gave, a key counted as often as it was given.
  abbrev pub amount : List (Db × List String) → ℕ
  amount [] = 0
  amount ((db, keys) ∷ calls) = length keys + amount calls

  -- A run of the loop that ends, and the calls of SCAN that it made.
  record Ran (fuel count : ℕ) (cursor : String) (db : Db) : Type 0 where
    calls : List (Db × List String)
    left : Db
    iterated : Iteration cursor calls
    ran : clear_loop redis fuel pattern count cursor db ≡ some (count + amount calls, left)
    remains :
        (k : String) → redis.holds_string k left ≡ (redis.holds_string k db && not (given k calls))
    throughout :
        (k : String)
        → redis.holds_string k left ≡ true
        → All (λ (call : Db × List String). redis.holds_string k call.0 ≡ true) calls
    matched : (k : String) → given k calls ≡ true → redis.matches pattern k ≡ true

  module _ (promises : Promises) where
    delete_found_lem :
        (k : String) (keys : List String) (db : Db)
        → redis.holds_string k (delete_found redis keys db)
          ≡ (redis.holds_string k db && not (elem k keys))
    unfolding delete_found
    delete_found_lem k [] db = ground arith
    delete_found_lem k (x ∷ keys) db = promises.deleted k (x ∷ keys) db

    module _ (fuel count : ℕ) (cursor : String) (db : Db) where
      keys_of : List String
      keys_of = (redis.scan cursor pattern 64 db).1

      next_of : String
      next_of = (redis.scan cursor pattern 64 db).0

      after : Db
      after = delete_found redis keys_of db

      ends : next_of ≡ "0" → Ran (suc fuel) count cursor db
      unfolding clear_loop keys_of next_of after
      ends e = record {
        calls = (db, keys_of) ∷ [];
        left = after;
        iterated = last (ground arith);
        ran = ground (arith, eq_iff next_of "0");
        remains = λ k. ground (arith, delete_found_lem k keys_of db);
        throughout = λ k h. ground (arith, delete_found_lem k keys_of db);
        matched = λ k h. promises.sound cursor db k (ground arith);
      }

      goes_on :
          next_of ≢ "0"
          → Ran fuel (count + length keys_of) next_of after
          → Ran (suc fuel) count cursor db
      unfolding clear_loop keys_of next_of after
      goes_on more r = record {
        calls = (db, keys_of) ∷ r.calls;
        left = r.left;
        iterated = next refl more r.iterated;
        ran = ground (arith, eq_iff next_of "0", r.ran);
        remains = λ k. ground (arith, r.remains k, delete_found_lem k keys_of db);
        throughout =
            λ k h. (ground (arith, r.remains k, delete_found_lem k keys_of db), r.throughout k h);
        matched = λ k h. ground (arith, promises.sound cursor db k, r.matched k);
      }

    loop_runs :
        (fuel count : ℕ) (cursor : String) (db : Db)
        → promises.rank db cursor < fuel
        → Ran fuel count cursor db
    unfolding keys_of next_of after
    loop_runs zero count cursor db enough = absurd (omega arith)
    loop_runs (suc fuel) count cursor db enough =
        let next = (redis.scan cursor pattern 64 db).0 in
        let keys = (redis.scan cursor pattern 64 db).1 in
        elim (Bool-cases (str_eq next "0")) [
          | inl e ↦ ends fuel count cursor db ((eq_iff next "0").0 e)
          | inr e ↦
              let more = str_ne next "0" e in
              goes_on fuel count cursor db more (
                loop_runs fuel (count + length keys) next (delete_found redis keys db)
                  (omega (arith, promises.falls db cursor more)))
        ]

    -- With fuel for the table that the cursors go through, the script ends. It has then deleted every
    -- string whose key matches the pattern, and no other.
    pub clear_script_lem :
        (fuel : ℕ) (db : Db)
        → promises.rank db "0" < fuel
        → (n : ℕ) × (left : Db) × (clear_script redis fuel pattern db ≡ some (n, left))
          × ((k : String)
              → redis.holds_string k left
                ≡ (redis.holds_string k db && not (redis.matches pattern k)))
    unfolding clear_script
    clear_script_lem fuel db enough =
        let r = loop_runs fuel 0 "0" db enough in (0 + amount r.calls, r.left, r.ran, λ k. rest r k)
      where
        rest :
            (r : Ran fuel 0 "0" db) (k : String)
            → redis.holds_string k r.left
              ≡ (redis.holds_string k db && not (redis.matches pattern k))
        rest r k = elim (Bool-cases (redis.holds_string k r.left)) [
          | inl stays ↦ ground (
            arith,
            r.remains k,
            r.matched k,
            promises.complete r.calls k r.iterated,
            r.throughout k stays,
          )
          | inr gone ↦ ground (arith, r.remains k, r.matched k)
        ]
