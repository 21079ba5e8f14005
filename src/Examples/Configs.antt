-- ===== src/Examples/Configs.antt =====
-- main.go and the fields of Configuration at concrete inputs.
use sandwich_producer.Base.{
  ◌≡◌, refl, List, [], ◌∷◌, String, Option, none, some, get, string_key, GoError, no_token_provided,
  panic, nil_map_write,
}
use sandwich_producer.Manager.{Configuration, Manager}
use sandwich_producer.Program.Text.{
  Json, text, array, object, value, no_values, member, no_members, Members, texts_of,
}
use sandwich_producer.Program.Config.{by_tags, read_members, zero_configuration, run_program}
use sandwich_producer.Program.Config.Reading.{FollowsTags}
use sandwich_producer.Program.Config.Blacklists.{run_program-nil_blacklist}
use sandwich_producer.Examples.Programs.{no_replies, services, http, clocks}

-- A library that finds a field by its tag, spelled alike.
abbrev find : (F : Type 0) → List (String × F) → String → Option F
find F tags k = get k tags

abbrev read_by : Option Configuration → Configuration → Option GoError × Configuration
read_by none c = (some no_token_provided, c)
read_by (some c') c = (none, c')

abbrev unmarshal : Json → Configuration → Option GoError × Configuration
unmarshal j c = read_by (by_tags find j c) c

follows : FollowsTags find unmarshal
follows j c c' e = rw e refl

-- A text with a token and one event.
abbrev silent : Members
silent =
    member "token" (text "token")
      (member "event_blacklist" (array (value (text "TYPING_START") no_values)) no_members)

run_program-nil_blacklist_example :
    run_program http clocks no_replies unmarshal services 42 (object silent) ≡ panic nil_map_write
unfolding read_members get texts_of
run_program-nil_blacklist_example =
    run_program-nil_blacklist http clocks no_replies find unmarshal follows services 42 silent
      (record zero_configuration { token = "token"; event_blacklist_values = "TYPING_START" ∷ [] })
      "TYPING_START" [] refl ((λ e. cc), ((λ e. cc), tt)) (λ h. cc) refl
