-- ===== src/Examples/Keys.antt =====
-- gateway/state.go at concrete inputs.
use sandwich_producer.Base.{
  ℕ, ◌≡◌, refl, sym, ap, true, false, ◌&&◌, ◌||◌, not, List, [], ◌∷◌, some, String, str_eq, eq_iff,
  arith, if◌then◌else◌, All,
}
use sandwich_producer.ClearKeys.{Redis, elem, clear_script}
use sandwich_producer.ClearKeys.Completeness.{
  Promises, Iteration, last, next, given, clear_script_lem,
}

abbrev without : List String → List String → List String
without keys [] = []
without keys (k ∷ db) = let rest = without keys db in if elem k keys then rest else k ∷ rest

abbrev found : String → List String → List String
found pattern db = if elem pattern db then pattern ∷ [] else []

-- A server that holds strings only, and whose patterns have no wildcards: one call finds the key.
abbrev server : Redis (List String)
server = record {
  holds_string = elem;
  matches = str_eq;
  scan = λ cursor pattern count db. ("0", found pattern db);
  del = without;
}

without_lem :
    (k : String) (keys db : List String)
    → elem k (without keys db) ≡ (elem k db && not (elem k keys))
without_lem k keys [] = refl
without_lem k keys (x ∷ db) = ground (arith, eq_iff k x, without_lem k keys db)

found_sound :
    (pattern k : String) (db : List String)
    → elem k (found pattern db) ≡ true
    → str_eq pattern k ≡ true
found_sound pattern k db h = ground (arith, eq_iff k pattern, eq_iff pattern k)

is_found :
    (pattern k : String) (db : List String)
    → str_eq pattern k ≡ true
    → elem k db ≡ true
    → (elem k (found pattern db) || false) ≡ true
is_found pattern k db m h =
    rw (sym ((eq_iff pattern k).0 m))
      (ground (arith, eq_iff k k, eq_iff pattern pattern, eq_iff pattern k))

found_complete :
    (pattern k : String) (calls : List (List String × List String))
    → Iteration server pattern "0" calls
    → str_eq pattern k ≡ true
    → All (λ (call : List String × List String). elem k call.0 ≡ true) calls
    → given server pattern k calls ≡ true
found_complete pattern k calls (last {db = db} {keys = keys} e) m h =
    rw (sym (ap (λ (x : String × List String). x.1) e)) (is_found pattern k db m h.0)
found_complete pattern k calls (next e more rest) m h =
    absurd (more (sym (ap (λ (x : String × List String). x.0) e)))

server_promises : (pattern : String) → Promises server pattern
server_promises pattern = record {
  sound = λ cursor db k h. found_sound pattern k db h;
  complete = λ calls k. found_complete pattern k calls;
  rank = λ db cursor. 0;
  falls = λ db cursor more. absurd (more refl);
  deleted = without_lem;
}

abbrev stored : List String
stored = "guild:1" ∷ "user:1" ∷ []

clear_script_lem_example :
    (n : ℕ) × (left : List String) × (clear_script server 1 "user:1" stored ≡ some (n, left))
    × ((k : String) → elem k left ≡ (elem k stored && not (str_eq "user:1" k)))
unfolding server_promises
clear_script_lem_example =
    clear_script_lem server "user:1" (server_promises "user:1") 1 stored (omega arith)
