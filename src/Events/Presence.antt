-- ===== src/Events/Presence.antt =====
-- events/presence.go: the activity that an identify packet carries. A snowflake is an int64.
use sandwich_producer.Base.{ℤ, Bool, String, List, pos, false, []}

pub record Timestamps : Type 0 where
  pub start : ℤ
  pub end : ℤ

pub record Party : Type 0 where
  pub id : String
  pub size : List ℤ

pub record Assets : Type 0 where
  pub large_image : String
  pub large_text : String
  pub small_image : String
  pub small_text : String

pub record Secrets : Type 0 where
  pub join : String
  pub spectate : String
  pub match : String

pub record Activity : Type 0 where
  pub name : String
  pub activity_type : ℤ
  pub url : String
  pub timestamps : Timestamps
  pub application_id : ℤ
  pub details : String
  pub state : String
  pub party : Party
  pub assets : Assets
  pub secrets : Secrets
  pub instance_flag : Bool
  pub flags : ℤ

-- `events.Activity{}`: every field at the zero value of its type.
abbrev pub zero_activity : Activity
zero_activity = record {
  name = "";
  activity_type = pos 0;
  url = "";
  timestamps = record { start = pos 0; end = pos 0 };
  application_id = pos 0;
  details = "";
  state = "";
  party = record { id = ""; size = [] };
  assets = record { large_image = ""; large_text = ""; small_image = ""; small_text = "" };
  secrets = record { join = ""; spectate = ""; match = "" };
  instance_flag = false;
  flags = pos 0;
}
