-- ===== src/Program/Text.antt =====
-- main.go: the text of the configuration, as the JSON value that it denotes, and the values that a field
-- takes from it (gateway/manager.go, the types of Configuration's fields).
use sandwich_producer.Base.{
  ℤ, pos, wrap64, eqb_ℤ, Bool, true, false, if◌then◌else◌, String, List, [], ◌∷◌, Option, none,
  some, put, string_key,
}
use sandwich_producer.Events.Presence.{Activity, zero_activity}
use sandwich_producer.Manager.{Blacklist}

mutual
  -- The values that a text denotes, numbers with a fraction and `null` left out.
  pub data Json : Type 0 where
    text : String → Json
    number : ℤ → Json
    truth : Bool → Json
    array : Values → Json
    object : Members → Json

  pub data Values : Type 0 where
    no_values : Values
    value : Json → Values → Values

  pub data Members : Type 0 where
    no_members : Members
    member : String → Json → Members → Members

-- The values that a field of each type takes. `none` means that the library reports an error, or that
-- nothing is said of it here.
abbrev pub text_of : Json → Option String
text_of (text s) = some s
text_of _ = none

abbrev pub int_of : Json → Option ℤ
int_of (number n) = if eqb_ℤ (wrap64 n) n then some n else none
int_of _ = none

abbrev pub truth_of : Json → Option Bool
truth_of (truth b) = some b
truth_of _ = none

abbrev pub assign {ℓ κ} : {A : Type ℓ} {B : Type κ} → Option A → (A → B) → Option B
assign none set = none
assign (some x) set = some (set x)

-- A `[]string`.
unfoldable pub texts_of : Values → Option (List String)
texts_of no_values = some []
texts_of (value v vs) = elim (text_of v) [
  | none ↦ none
  | some s ↦ assign (texts_of vs) (λ rest. s ∷ rest)
]

abbrev pub list_of : Json → Option (List String)
list_of (array vs) = texts_of vs
list_of _ = none

-- The keys of an object that go into a `map[string]void`.
unfoldable pub voids : Members → List (String × Unit {0}) → Option (List (String × Unit {0}))
voids no_members m = some m
voids (member k (object _) ms) m = voids ms (put k tt m)
voids (member k _ ms) m = none

abbrev pub blacklist_of : Json → Blacklist → Option Blacklist
blacklist_of (object ms) none = assign (voids ms []) some
blacklist_of (object ms) (some m) = assign (voids ms m) some
blacklist_of _ m = none

-- A `*events.Activity`; an object with keys is left out.
abbrev pub activity_of : Json → Option Activity → Option (Option Activity)
activity_of (object no_members) none = some (some zero_activity)
activity_of (object no_members) (some a) = some (some a)
activity_of _ a = none

abbrev members : List (String × Json) → Members
members [] = no_members
members ((k, v) ∷ rest) = member k v (members rest)

-- The constant `config`, with its two objects first; its two tokens are left open.
unfoldable pub redis_members : Json
redis_members = object (
    members (
      ("address", text "127.0.0.1:6379")
      ∷ ("password", text "")
      ∷ ("database", number (pos 0))
      ∷ ("prefix", text "welcomer")
      ∷ []))

unfoldable pub nats_members : Json
nats_members = object (
    members (
      ("address", text "127.0.0.1:4222")
      ∷ ("channel", text "welcomer")
      ∷ ("cluster", text "cluster")
      ∷ ("client", text "welcomer")
      ∷ []))

unfoldable pub main_config : String → String → Json
main_config token other = object (
    members (
      ("token", text token)
      ∷ ("_token", text other)
      ∷ ("concurrent_clients", number (pos 1))
      ∷ ("autoshard", truth false)
      ∷ ("shard_count", number (pos 2))
      ∷ ("cluster_count", number (pos 1))
      ∷ ("cluster_id", number (pos 0))
      ∷ ("max_heartbeat_failures", number (pos 5))
      ∷ ("redis", redis_members)
      ∷ ("nats", nats_members)
      ∷ ("event_blacklist", array no_values)
      ∷ ("produce_blacklist", array no_values)
      ∷ ("compression", truth true)
      ∷ ("large_threshold", number (pos 100))
      ∷ ("default_activity", object no_members)
      ∷ ("guild_subscriptions", truth false)
      ∷ []))
