-- ===== src/Utils/Exports/Packets.antt =====
-- gateway/utils.go, DeepEqualExports, on the packets of events/: under the tag that they have, and
-- under the tag that it takes by default.
use sandwich_producer.Base.{
  Bool, true, false, ◌&&◌, ◌||◌, not, [], ◌∷◌, String, str_eq, eq_iff, ◌≡◌, ◌≢◌, ◌↔◌, refl, arith,
  All, Returns, Returns-mono, ap, ret, get, string_key,
}
use mathlib.Core.Logic.Iff
use sandwich_producer.Events.Users.{User}
use sandwich_producer.Events.Reflected.{reflect_user}
use sandwich_producer.Utils.Reflection.{Value, Field, Struct}
use sandwich_producer.Utils.Exports.{
  IsProper, SameType, is_selected, exports, deep_equal_exports, deep_equal_exports-Decides,
  compare_fields, Decides,
}

-- No field of the struct has the name.
unnamed : String → Struct → Bool
unnamed name [] = true
unnamed name ((f, v) ∷ s) = not (str_eq name f.name) && unnamed name s

-- `IsProper` as a test.
proper : String → Struct → Bool
proper tag [] = true
proper tag ((f, v) ∷ s) =
    unnamed f.name s && (not (is_selected tag f) || f.exported) && proper tag s

unnamed_sound :
    (name : String) (s : Struct)
    → unnamed name s ≡ true
    → All (λ (p : Field × Value). name ≢ p.0.name) s
unfolding unnamed
unnamed_sound name [] h = tt
unnamed_sound name ((f, v) ∷ s) h =
    (ground (arith, eq_iff name f.name), unnamed_sound name s (ground arith))

proper-IsProper : (tag : String) (s : Struct) → proper tag s ≡ true → IsProper tag s
unfolding proper
proper-IsProper tag [] h = tt
proper-IsProper tag ((f, v) ∷ s) h =
    (unnamed_sound f.name s (ground arith), ground arith, proper-IsProper tag s (ground arith))

user-IsProper : (u : User) → IsProper "json" (reflect_user u)
unfolding proper unnamed reflect_user is_selected get
user-IsProper u = proper-IsProper "json" (reflect_user u) refl

exports-reflect_user :
    (u w : User) → (exports "json" (reflect_user u) ≡ exports "json" (reflect_user w)) ↔ (u ≡ w)
unfolding exports is_selected reflect_user get
exports-reflect_user u w = (λ e. ground arith, λ e. ap (λ x. exports "json" (reflect_user x)) e)

unselected :
    (tag : String) (a b s : Struct)
    → All (λ (p : Field × Value). is_selected tag p.0 ≡ false) s
    → compare_fields tag a b s ≡ ret true
unfolding compare_fields
unselected tag a b [] h = refl
unselected tag a b ((f, v) ∷ s) h = rw h.0 (unselected tag a b s h.1)

same_type : (u w : User) → SameType (reflect_user u) (reflect_user w)
unfolding reflect_user
same_type u w = ground arith

-- Under the tag "json" DeepEqualExports is true of two users exactly if they are equal. Under its
-- default tag, which no packet has, it is true of any two users.
pub deep_equal_exports-reflect_user :
    (u w : User)
    → Returns
        (λ r. (r ≡ true) ↔ (u ≡ w))
        (deep_equal_exports "json" (reflect_user u) (reflect_user w))
      × (deep_equal_exports "" (reflect_user u) (reflect_user w) ≡ ret true)
unfolding deep_equal_exports reflect_user is_selected get
deep_equal_exports-reflect_user u w = (
  Returns-mono (Decides (exports "json" (reflect_user u)) (exports "json" (reflect_user w)))
      (λ r. (r ≡ true) ↔ (u ≡ w)) (deep_equal_exports "json" (reflect_user u) (reflect_user w))
      (λ r d. Iff.trans d (exports-reflect_user u w))
      (deep_equal_exports-Decides "json" (reflect_user u) (reflect_user w) (same_type u w)
        (user-IsProper u)),
  unselected "msgpack" (reflect_user u) (reflect_user w) (reflect_user u) (ground arith),
)
