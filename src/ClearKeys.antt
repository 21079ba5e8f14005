-- ===== src/ClearKeys.antt =====
-- gateway/state.go: ClearKeys and the script that it runs in Redis. Redis is a parameter.
pub mod Completeness
use sandwich_producer.Base.{
  ℕ, zero, suc, ℤ, pos, ◌+◌, Bool, false, ◌||◌, List, [], ◌∷◌, Option, none, some, String, str_eq,
  GoError, if◌then◌else◌, length,
}

-- A Redis server: whether a key holds a string, whether a key matches a pattern, and the commands
-- `SCAN cursor MATCH pattern COUNT 64 TYPE string`, which answers with the next cursor and keys, and
-- `DEL`.
pub record Redis (Db : Type 0) : Type 0 where
  pub holds_string : String → Db → Bool
  pub matches : String → String → Bool
  pub scan : String → String → ℕ → Db → String × List String
  pub del : List String → Db → Db

abbrev pub elem : String → List String → Bool
elem k [] = false
elem k (x ∷ xs) = str_eq k x || elem k xs

module _ {Db : Type 0} (redis : Redis Db) where
  -- `if #req[2] > 0 then redis.call("DEL", unpack(req[2])) end`
  unfoldable pub delete_found : List String → Db → Db
  delete_found [] db = db
  delete_found (k ∷ ks) db = redis.del (k ∷ ks) db

  -- The loop of the script, on fuel, with `count` and `cursor`.
  unfoldable pub clear_loop : ℕ → String → ℕ → String → Db → Option (ℕ × Db)
  unfolding delete_found
  clear_loop zero pattern count cursor db = none
  clear_loop (suc fuel) pattern count cursor db =
      let (next, keys) = redis.scan cursor pattern 64 db in
      let db' = delete_found keys db in
      let rest = clear_loop fuel pattern (count + length keys) next db' in
      if str_eq next "0" then some (count + length keys, db') else rest

  -- The script.
  unfoldable pub clear_script : ℕ → String → Db → Option (ℕ × Db)
  unfolding clear_loop
  clear_script fuel pattern db = clear_loop fuel pattern 0 "0" db

-- ClearKeys, on what `Eval` returned. The error of the `if` is a variable of its own.
unfoldable pub clear_keys : ℤ × Option GoError → ℤ × Option GoError
clear_keys (result, none) = (result, none)
clear_keys (result, some e) = (pos 0, none)
