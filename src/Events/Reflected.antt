-- ===== src/Events/Reflected.antt =====
-- What the package reflect sees of a user (events/user.go), a role (events/role.go) and an overwrite
-- (events/channel.go): their fields in order, each with its `json` tag.
use sandwich_producer.Base.{String, [], ◌∷◌, true}
use sandwich_producer.Events.Users.{User, Role}
use sandwich_producer.Events.Channels.{Overwrite}
use sandwich_producer.Utils.Reflection.{Field, Struct, int, bool, text}

abbrev tagged : String → String → Field
tagged name tag = record { name = name; tags = ("json", tag) ∷ []; exported = true }

unfoldable pub reflect_user : User → Struct
reflect_user u =
    (tagged "ID" "id", int u.id)
    ∷ (tagged "Username" "username", text u.username)
    ∷ (tagged "Discriminator" "discriminator", text u.discriminator)
    ∷ (tagged "Avatar" "avatar", text u.avatar)
    ∷ (tagged "Bot" "bot,omitempty", bool u.bot)
    ∷ (tagged "MFAEnabled" "mfa_enabled,omitempty", bool u.mfa_enabled)
    ∷ (tagged "Locale" "locale,omitempty", text u.locale)
    ∷ (tagged "Verified" "verified,omitempty", bool u.verified)
    ∷ (tagged "Email" "email,omitempty", text u.email)
    ∷ (tagged "Flags" "flags", int u.flags)
    ∷ (tagged "PremiumType" "premium_type", int u.premium_type)
    ∷ []

unfoldable pub reflect_role : Role → Struct
reflect_role r =
    (tagged "ID" "id", int r.id)
    ∷ (tagged "Name" "name", text r.name)
    ∷ (tagged "Color" "color", int r.color)
    ∷ (tagged "Hoist" "hoist", bool r.hoist)
    ∷ (tagged "Position" "position", int r.position)
    ∷ (tagged "Permissions" "permissions", int r.permissions)
    ∷ (tagged "Managed" "managed", bool r.managed)
    ∷ (tagged "Mentionable" "mentionable", bool r.mentionable)
    ∷ []

unfoldable pub reflect_overwrite : Overwrite → Struct
reflect_overwrite o =
    (tagged "ID" "id", int o.id)
    ∷ (tagged "Type" "type", text o.overwrite_type)
    ∷ (tagged "Allow" "allow", int o.allow)
    ∷ (tagged "Deny" "deny", int o.deny)
    ∷ []
