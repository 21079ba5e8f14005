-- ===== src/Utils/Reflection.antt =====
-- What gateway/utils.go uses of the package reflect: the fields of a struct with their tags, and
-- `reflect.DeepEqual` on the values that a packet can hold.
use sandwich_producer.Base.{
  ℤ, Bool, true, false, ◌&&◌, List, String, str_eq, eqb_ℤ, eqb_ℤ_iff, eq_iff, ◌≡◌, ◌↔◌, arith, refl,
}

-- `absent` is a nil pointer or a nil slice, which differs from an empty slice.
mutual
  pub data Value : Type 0 where
    int : ℤ → Value
    bool : Bool → Value
    text : String → Value
    absent : Value
    pointer : Value → Value
    slice : Values → Value
    struct : Values → Value

  pub data Values : Type 0 where
    end : Values
    value : Value → Values → Values

-- A struct's field: its name, its tags, and whether it is exported.
pub record Field : Type 0 where
  pub name : String
  pub tags : List (String × String)
  pub exported : Bool

-- A struct: its fields in order, with their values.
abbrev pub Struct : Type 0
Struct = List (Field × Value)

abbrev same_bool : Bool → Bool → Bool
same_bool true b = b
same_bool false true = false
same_bool false false = true

unfoldable mutual
  pub deep_equal : Value → Value → Bool
  deep_equal (int a) (int b) = eqb_ℤ a b
  deep_equal (bool a) (bool b) = same_bool a b
  deep_equal (text s) (text t) = str_eq s t
  deep_equal absent absent = true
  deep_equal (pointer v) (pointer w) = deep_equal v w
  deep_equal (slice vs) (slice ws) = deep_equal_all vs ws
  deep_equal (struct vs) (struct ws) = deep_equal_all vs ws
  deep_equal _ _ = false

  pub deep_equal_all : Values → Values → Bool
  deep_equal_all end end = true
  deep_equal_all (value v vs) (value w ws) = deep_equal v w && deep_equal_all vs ws
  deep_equal_all _ _ = false

mutual
  unfolding deep_equal

  deep_equal_sound : (v w : Value) → deep_equal v w ≡ true → v ≡ w
  deep_equal_sound (int a) (int b) h = ground (arith, eqb_ℤ_iff a b)
  deep_equal_sound (bool a) (bool b) h = ground arith
  deep_equal_sound (text s) (text t) h = ground (arith, eq_iff s t)
  deep_equal_sound (pointer v) (pointer w) h = ground (arith, deep_equal_sound v w)
  deep_equal_sound (slice vs) (slice ws) h = ground (arith, deep_equal_all_sound vs ws)
  deep_equal_sound (struct vs) (struct ws) h = ground (arith, deep_equal_all_sound vs ws)
  deep_equal_sound v w h = ground arith

  deep_equal_all_sound : (vs ws : Values) → deep_equal_all vs ws ≡ true → vs ≡ ws
  deep_equal_all_sound (value v vs) (value w ws) h =
      ground (arith, deep_equal_sound v w, deep_equal_all_sound vs ws)
  deep_equal_all_sound vs ws h = ground arith

mutual
  unfolding deep_equal

  deep_equal_refl : (v : Value) → deep_equal v v ≡ true
  deep_equal_refl (int a) = ground (arith, eqb_ℤ_iff a a)
  deep_equal_refl (bool a) = ground arith
  deep_equal_refl (text s) = ground (arith, eq_iff s s)
  deep_equal_refl absent = refl
  deep_equal_refl (pointer v) = deep_equal_refl v
  deep_equal_refl (slice vs) = deep_equal_all_refl vs
  deep_equal_refl (struct vs) = deep_equal_all_refl vs

  deep_equal_all_refl : (vs : Values) → deep_equal_all vs vs ≡ true
  deep_equal_all_refl end = refl
  deep_equal_all_refl (value v vs) = ground (arith, deep_equal_refl v, deep_equal_all_refl vs)

-- Deep equality of the modelled values is equality.
pub deep_equal_iff : (v w : Value) → (deep_equal v w ≡ true) ↔ (v ≡ w)
deep_equal_iff v w = (deep_equal_sound v w, λ e. rw e (deep_equal_refl w))
