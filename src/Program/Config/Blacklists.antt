-- ===== src/Program/Config/Blacklists.antt =====
-- main.go and gateway/manager.go: a text that lists events to be left out.
use sandwich_producer.Base.{
  ℕ, ℤ, ◌≡◌, ◌≢◌, refl, ap, ◌∙◌, Option-cases, inl, inr, String, List, ◌∷◌, Option, none, some,
  GoError, panic, nil_map_write, arith,
}
use sandwich_producer.Events.Packets.{GatewayBot}
use sandwich_producer.Client.{Http}
use sandwich_producer.ShardGroup.{Clocks}
use sandwich_producer.Manager.{Configuration, Services}
use sandwich_producer.Manager.Create.{new_manager-nil_blacklist}
use sandwich_producer.Program.{with_client_id, no_features, run_main}
use sandwich_producer.Program.Text.{Json, object, member, Members, no_members, assign}
use sandwich_producer.Program.Config.{
  Finder, ConfigurationField, event_blacklist_map, configuration_tags, read_members,
  set_configuration, by_tags, zero_configuration, run_program,
}
use sandwich_producer.Program.Config.Reading.{FollowsTags}

-- None of the keys is for the map of events itself.
abbrev pub NoMap : Finder → Members → Type 0
NoMap find no_members = Unit {0}
NoMap find (member k v ms) =
    (find ConfigurationField configuration_tags k ≢ some event_blacklist_map) × NoMap find ms

-- An assignment to another field keeps the map of events.
assign-event_blacklist {ℓ} :
    {A : Type ℓ} (x : Option A) (set : A → Configuration) (c : Configuration) {c' : Configuration}
    → ((y : A) → (set y).event_blacklist ≡ c.event_blacklist)
    → assign x set ≡ some c'
    → c'.event_blacklist ≡ c.event_blacklist
assign-event_blacklist none set c keeps e = cc
assign-event_blacklist (some y) set c keeps e = ground (arith, keeps y)

module _ (find : Finder) where
  set_configuration-event_blacklist :
      (f : ConfigurationField) (v : Json) (c : Configuration) {c' : Configuration}
      → f ≢ event_blacklist_map
      → set_configuration find f v c ≡ some c'
      → c'.event_blacklist ≡ c.event_blacklist
  set_configuration-event_blacklist event_blacklist_map v c other e = absurd (other refl)
  set_configuration-event_blacklist _ v c other e = assign-event_blacklist _ _ c (λ _. refl) e

  read_members-event_blacklist :
      (ms : Members) (c c' : Configuration)
      → NoMap find ms
      → read_members find configuration_tags (set_configuration find) ms c ≡ some c'
      → c'.event_blacklist ≡ c.event_blacklist
  unfolding read_members
  read_members-event_blacklist no_members c c' h e = ground (arith, e)
  read_members-event_blacklist (member k v ms) c c' h e =
      elim (Option-cases (find ConfigurationField configuration_tags k)) [
        | inl missing ↦ read_members-event_blacklist ms c c' h.1 (ground (arith, missing, e))
        | inr (f, found) ↦ elim (Option-cases (set_configuration find f v c)) [
          | inl refused ↦ absurd (ground (arith, found, refused, e))
          | inr (c₁, written) ↦
              read_members-event_blacklist ms c₁ c' h.1 (ground (arith, found, written, e))
              ∙ set_configuration-event_blacklist f v c (λ same. h.0 (found ∙ ap some same)) written
        ]
      ]

-- A text with a token that lists events, and has no key for the map of events itself, makes main panic: NewManager
-- writes the list to a nil map.
pub run_program-nil_blacklist :
    {Body : Type 0} (http : Http Body (Option GatewayBot)) (clocks : Clocks)
    (replies : ℤ → Option GoError) (find : Finder)
    (unmarshal : Json → Configuration → Option GoError × Configuration)
    → FollowsTags find unmarshal
    → (services : Services) (random : ℕ) (ms : Members) (c : Configuration) (event : String)
      (events : List String)
    → by_tags find (object ms) zero_configuration ≡ some c
    → NoMap find ms
    → c.token ≢ ""
    → c.event_blacklist_values ≡ event ∷ events
    → run_program http clocks replies unmarshal services random (object ms) ≡ panic nil_map_write
unfolding run_program run_main with_client_id
run_program-nil_blacklist http clocks replies find unmarshal follows services random ms c event
      events said no_map given listed =
    rw
      (
        follows (object ms) zero_configuration c said,
        new_manager-nil_blacklist services no_features (with_client_id random c) event events given
            (read_members-event_blacklist find ms zero_configuration c no_map said) listed,
      )
      refl
