-- ===== src/Program/Config/Reading.antt =====
-- main.go: the program on the text of its configuration.
use sandwich_producer.Base.{
  pos, true, false, ◌≡◌, String, List, [], Option, none, some, get, string_key, GoError,
}
use sandwich_producer.Events.Presence.{zero_activity}
use sandwich_producer.Manager.{Configuration, Manager}
use sandwich_producer.Program.Text.{Json, member, Members, no_members}
use sandwich_producer.Program.Config.{Finder, configuration_tags, by_tags}

-- The library finds the field whose tag is the key, and none for a key that spells no tag, such as these
-- two.
pub record FindsFields (find : Finder) : Type 1 where
  pub exact :
      {F : Type 0} (tags : List (String × F)) (k : String) {f : F}
      → get k tags ≡ some f
      → find F tags k ≡ some f
  pub no_second_token : find _ configuration_tags "_token" ≡ none
  pub no_clients : find _ configuration_tags "concurrent_clients" ≡ none

-- The library writes to the configuration what the tags say.
abbrev pub FollowsTags : Finder → (Json → Configuration → Option GoError × Configuration) → Type 0
FollowsTags find unmarshal =
    (j : Json) (c c' : Configuration) → by_tags find j c ≡ some c' → unmarshal j c ≡ (none, c')

-- What the text of main.go says, its token left open.
abbrev pub main_configuration : String → Configuration
main_configuration token = record {
  token = token;
  max_concurrent_identifies = pos 0;
  max_heartbeat_failures = pos 5;
  auto_sharded = false;
  shard_count = pos 2;
  cluster_count = pos 1;
  cluster_id = pos 0;
  redis = record {
    address = "127.0.0.1:6379";
    password = "";
    database = pos 0;
    prefix = "welcomer";
  };
  nats = record {
    address = "127.0.0.1:4222";
    channel = "welcomer";
    cluster_id = "cluster";
    client_id = "welcomer";
  };
  event_blacklist = none;
  event_blacklist_values = [];
  produce_blacklist = none;
  produce_blacklist_values = [];
  compression = true;
  large_threshold = pos 100;
  default_presence = some zero_activity;
  guild_subscriptions = false;
  intents = pos 0;
}

-- The members of an object, one after the other: those with a tag as their key are written, and those
-- with a key that has no field are not.
data Reads {F A : Type 0} (find : Finder) (tags : List (String × F)) (set : F → Json → A → Option A)
    : Members → A → A → Type 0 where
  ends : {a : A} → Reads find tags set no_members a a
  tagged :
      {k : String} {v : Json} {ms : Members} {f : F} {a a' a'' : A}
      → get k tags ≡ some f
      → set f v a ≡ some a'
      → Reads find tags set ms a' a''
      → Reads find tags set (member k v ms) a a''
  unknown :
      {k : String} {v : Json} {ms : Members} {a a'' : A}
      → find F tags k ≡ none
      → Reads find tags set ms a a''
      → Reads find tags set (member k v ms) a a''
