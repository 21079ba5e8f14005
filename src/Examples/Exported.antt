-- ===== src/Examples/Exported.antt =====
-- gateway/utils.go, DeepEqualExports, at concrete inputs.
use sandwich_producer.Base.{ℤ, pos, ◌≡◌, ◌↔◌, refl, true, false, [], ◌∷◌, String, Returns, ret, get}
use sandwich_producer.Events.Users.{User}
use sandwich_producer.Events.Reflected.{reflect_user}
use sandwich_producer.Utils.Reflection.{Field, Struct, int, text}
use sandwich_producer.Utils.Exports.{
  Decides, IsProper, is_selected, exports, deep_equal_exports, deep_equal_exports-Decides,
}
use sandwich_producer.Utils.Exports.Packets.{deep_equal_exports-reflect_user}

abbrev user : User
user = record {
  id = pos 7;
  username = "sandwich";
  discriminator = "0001";
  avatar = "";
  bot = true;
  mfa_enabled = false;
  locale = "";
  verified = false;
  email = "";
  flags = pos 0;
  premium_type = pos 0;
}

abbrev other_user : User
other_user = record user { username = "producer" }

deep_equal_exports-reflect_user_example :
    Returns
      (λ r. (r ≡ true) ↔ (user ≡ other_user))
      (deep_equal_exports "json" (reflect_user user) (reflect_user other_user))
    × (deep_equal_exports "" (reflect_user user) (reflect_user other_user) ≡ ret true)
deep_equal_exports-reflect_user_example = deep_equal_exports-reflect_user user other_user

-- A struct with a field that is cached and one that is not.
abbrev cached : Field
cached = record { name = "Name"; tags = ("msgpack", "name") ∷ []; exported = true }

abbrev uncached : Field
uncached = record { name = "session"; tags = []; exported = false }

abbrev struct_of : String → ℤ → Struct
struct_of name session = (cached, text name) ∷ (uncached, int session) ∷ []

struct-IsProper : IsProper "msgpack" (struct_of "a" (pos 1))
unfolding is_selected get
struct-IsProper = (((λ h. cc), tt), (λ h. refl), (tt, (λ h. cc), tt))

deep_equal_exports-Decides_example :
    Returns
      (Decides
        (exports "msgpack" (struct_of "a" (pos 1)))
        (exports "msgpack" (struct_of "a" (pos 2))))
      (deep_equal_exports "" (struct_of "a" (pos 1)) (struct_of "a" (pos 2)))
deep_equal_exports-Decides_example =
    deep_equal_exports-Decides "" (struct_of "a" (pos 1)) (struct_of "a" (pos 2)) (refl, (refl, tt))
      struct-IsProper
