-- ===== src/Utils/Exports.antt =====
-- gateway/utils.go: DeepEqualExports, on the structs that its two arguments point to.
use sandwich_producer.Base.{
  Bool, true, false, ◌&&◌, not, List, [], ◌∷◌, Option, none, some, String, str_eq, eq_iff, ◌≡◌, ◌≢◌,
  ◌↔◌, refl, arith, if◌then◌else◌, Outcome, ret, panic, bad_reflection, ◌>>=◌, get, string_key, All,
  All-zip, sym, Returns, Bool-cases, inl, inr,
}
pub mod Packets
use mathlib.Core.Path.{subst}
use sandwich_producer.Utils.Reflection.{Value, Field, Struct, deep_equal, deep_equal_iff}

abbrev tag_or_default : String → String
tag_or_default tag = if str_eq tag "" then "msgpack" else tag

-- `ok && tagValue != "-" && tagValue != ""`
abbrev named : Option String → Bool
named none = false
named (some v) = not (str_eq v "-") && not (str_eq v "")

unfoldable pub is_selected : String → Field → Bool
is_selected tag f = named (get tag f.tags)

-- `FieldByName`: the zero Value (`none`) if the struct has no such field.
unfoldable pub field_by_name : String → Struct → Option (Field × Value)
field_by_name name [] = none
field_by_name name ((f, v) ∷ s) = if str_eq f.name name then some (f, v) else field_by_name name s

-- `Interface()`, which panics on the zero Value and on a field that is not exported.
abbrev pub interface_of : Option (Field × Value) → Outcome Value
interface_of none = panic bad_reflection
interface_of (some (f, v)) = if f.exported then ret v else panic bad_reflection

-- The two values of a field, compared.
unfoldable pub compare_field : String → Struct → Struct → Outcome Bool
unfolding field_by_name
compare_field name a b = interface_of (field_by_name name a) >>= λ v.
    interface_of (field_by_name name b) >>= λ w. ret (deep_equal v w)

-- The loop over the fields of the first struct's type.
unfoldable pub compare_fields : String → Struct → Struct → Struct → Outcome Bool
unfolding compare_field is_selected
compare_fields tag a b [] = ret true
compare_fields tag a b ((f, v) ∷ fields) =
    let rest = compare_fields tag a b fields in
    if is_selected tag f
    then (compare_field f.name a b >>= λ same. if same then rest else ret false)
    else rest

unfoldable pub deep_equal_exports : String → Struct → Struct → Outcome Bool
unfolding compare_fields
deep_equal_exports tag a b = compare_fields (tag_or_default tag) a b a

-- What a struct exports under a tag: the values of the fields that have the tag.
unfoldable pub exports : String → Struct → List Value
unfolding is_selected
exports tag [] = []
exports tag ((f, v) ∷ s) = let rest = exports tag s in if is_selected tag f then v ∷ rest else rest

-- No two fields have the same name, and those with the tag are exported.
abbrev pub IsProper : String → Struct → Type 0
IsProper tag [] = Unit
IsProper tag ((f, v) ∷ s) =
    All (λ (p : Field × Value). f.name ≢ p.0.name) s
    × (is_selected tag f ≡ true → f.exported ≡ true)
    × IsProper tag s

-- The structs have the same type.
abbrev pub SameType : Struct → Struct → Type 0
SameType [] [] = Unit
SameType ((f, v) ∷ s) ((g, w) ∷ t) = (f ≡ g) × SameType s t
SameType _ _ = ⊥

-- `FieldByName` finds the field in the struct.
abbrev Finds : Struct → Field × Value → Type 0
Finds s p = field_by_name p.0.name s ≡ some p

field_by_name-tail :
    (f : Field) (v : Value) (s : Struct) (p : Field × Value)
    → f.name ≢ p.0.name
    → Finds s p
    → Finds ((f, v) ∷ s) p
unfolding field_by_name
field_by_name-tail f v s p other found = ground (arith, eq_iff f.name p.0.name)

field_by_name-Finds : (tag : String) (s : Struct) → IsProper tag s → All (Finds s) s
unfolding field_by_name
field_by_name-Finds tag [] h = tt
field_by_name-Finds tag ((f, v) ∷ s) h = (
  ground (arith, eq_iff f.name f.name),
  All-zip _ (Finds s) (Finds ((f, v) ∷ s)) s (field_by_name-tail f v s) h.0
      (field_by_name-Finds tag s h.2),
)

-- The comparison decides whether the two lists are equal.
abbrev pub Decides : List Value → List Value → Bool → Type 0
Decides xs ys r = (r ≡ true) ↔ (xs ≡ ys)

if-Decides :
    (same : Bool) (rest : Outcome Bool) (v w : Value) (xs ys : List Value)
    → (same ≡ true) ↔ (v ≡ w)
    → Returns (Decides xs ys) rest
    → Returns (Decides (v ∷ xs) (w ∷ ys)) (if same then rest else ret false)
if-Decides true (ret r) v w xs ys e h = ground arith
if-Decides true (panic p) v w xs ys e h = absurd h
if-Decides false rest v w xs ys e h = ground arith

compare_field_lem :
    (a b : Struct) (f : Field) (v w : Value)
    → f.exported ≡ true
    → Finds a (f, v)
    → Finds b (f, w)
    → compare_field f.name a b ≡ ret (deep_equal v w)
unfolding compare_field
compare_field_lem a b f v w exported here there =
    rw (here, there, exported, interface_of, ◌>>=◌) refl

module _ (tag : String) (a b : Struct) where
  compare_fields-Decides :
      (s t : Struct)
      → SameType s t
      → IsProper tag s
      → All (Finds a) s
      → All (Finds b) t
      → Returns (Decides (exports tag s) (exports tag t)) (compare_fields tag a b s)
  unfolding compare_fields exports
  compare_fields-Decides [] [] same proper here there = ground arith
  compare_fields-Decides [] (_ ∷ t) same proper here there = absurd same
  compare_fields-Decides ((f, v) ∷ s) [] same proper here there = absurd same
  compare_fields-Decides ((f, v) ∷ s) ((g, w) ∷ t) same proper here there =
      let rest = compare_fields-Decides s t same.1 proper.2 here.1 there.1 in
      elim (Bool-cases (is_selected tag f)) [
        | inl chosen ↦
            rw
              (
                sym same.0,
                chosen,
                compare_field_lem a b f v w (proper.1 chosen) here.0
                    (subst (λ x. Finds b (x, w)) (sym same.0) there.0),
              )
              (if-Decides (deep_equal v w) (compare_fields tag a b s) v w (exports tag s)
                (exports tag t) (deep_equal_iff v w) rest)
        | inr passed ↦ rw (sym same.0, passed) rest
      ]

names-SameType :
    (name : String) (s t : Struct)
    → SameType s t
    → All (λ (p : Field × Value). name ≢ p.0.name) s
    → All (λ (p : Field × Value). name ≢ p.0.name) t
names-SameType name [] [] same h = tt
names-SameType name [] (_ ∷ t) same h = absurd same
names-SameType name (_ ∷ s) [] same h = absurd same
names-SameType name ((f, v) ∷ s) ((g, w) ∷ t) same h =
    (subst (λ (x : Field). name ≢ x.name) same.0 h.0, names-SameType name s t same.1 h.1)

IsProper-SameType : (tag : String) (s t : Struct) → SameType s t → IsProper tag s → IsProper tag t
IsProper-SameType tag [] [] same h = tt
IsProper-SameType tag [] (_ ∷ t) same h = absurd same
IsProper-SameType tag (_ ∷ s) [] same h = absurd same
IsProper-SameType tag ((f, v) ∷ s) ((g, w) ∷ t) same h = (
  subst (λ (x : Field). All (λ (p : Field × Value). x.name ≢ p.0.name) t) same.0
      (names-SameType f.name s t same.1 h.0),
  subst (λ (x : Field). is_selected tag x ≡ true → x.exported ≡ true) same.0 h.1,
  IsProper-SameType tag s t same.1 h.2,
)

-- On two structs of one type, whose fields have distinct names and are exported where they have the
-- tag, DeepEqualExports does not panic, and is true exactly if the values of the fields with the
-- tag, in order, are equal. An empty tag stands for "msgpack".
pub deep_equal_exports-Decides :
    (tag : String) (a b : Struct)
    → SameType a b
    → IsProper (tag_or_default tag) a
    → Returns
        (Decides (exports (tag_or_default tag) a) (exports (tag_or_default tag) b))
        (deep_equal_exports tag a b)
unfolding deep_equal_exports
deep_equal_exports-Decides tag a b same proper =
    let used : String = tag_or_default tag in
    compare_fields-Decides used a b a b same proper (field_by_name-Finds used a proper)
      (field_by_name-Finds used b (IsProper-SameType used a b same proper))
