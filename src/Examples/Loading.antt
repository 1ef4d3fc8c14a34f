-- ===== src/Examples/Loading.antt =====
-- The configuration of the tests: a client that is created late with a reader, and a late server with
-- a writer, both endpoints with a topic and no times.
use discovery_server.Prelude.{ℕ, ◌≡◌, refl, true, false, none, some, String, [], ◌∷◌}
use discovery_server.Prelude.Int.{ℤ, pos, ◌+ℤ◌}
use discovery_server.Outcome.{done}
use discovery_server.Events.{as_server}
use discovery_server.Events.Kinds.{of_reader}
use discovery_server.Events.{
  DelayedParticipantCreation, DelayedEndpointCreation, participant_creation, endpoint_creation,
  earlier, event_at,
}
use discovery_server.OrderedSet.{find}
use discovery_server.Config.{Loading, push_event, get_time, new_pointer}
use discovery_server.Config.Endpoints.{load_endpoint}
use discovery_server.Config.Order.{load_endpoint_late}
use discovery_server.Config.Participants.{creation_time, removal_time}
use discovery_server.Config.Servers.{place_server}
use discovery_server.Config.LateServer.{IsUnknown, place_server_late}
use discovery_server.Manager.Maps.{get_participant, value_at}
use discovery_server.Examples.Document.{document, Tree}
use discovery_server.Examples.Running.{dds, client, process}

abbrev late_client : DelayedParticipantCreation ℕ
late_client = record (client none) { time = pos 5000000000 }

abbrev subscriber : Tree
subscriber = document.set_attribute "topic" "HelloWorldTopic" (document.new_element "subscriber")

abbrev loading : Loading dds
loading = record {
  process = process ((1, participant_creation late_client) ∷ []);
  queue = 1 ∷ [];
  topic_profiles = [];
  server_locators = [];
}

abbrev seconds : String → ℤ
seconds s = pos 0

load_endpoint_late_example :
    (event : DelayedEndpointCreation) × (load_endpoint dds false document seconds of_reader 0
        subscriber
        (some 1)
        none
        loading
      ≡ done (push_event dds (endpoint_creation of_reader event) loading))
    × (event.owner_event ≡ some 1)
    × (earlier (participant_creation late_client) (endpoint_creation of_reader event) ≡ true)
unfolding event_at find get_time ◌+ℤ◌
load_endpoint_late_example =
    load_endpoint_late dds false document seconds of_reader 0 subscriber 1 late_client loading refl
      refl refl refl refl

abbrev late_server : Tree
late_server =
    document.insert_end_child
      (document.set_attribute "topic" "HelloWorldTopic" (document.new_element "publisher"))
      (document.set_attribute "creation_time" "5" (document.new_element "server"))

abbrev five : String → ℤ
five s = pos 5

loading-IsUnknown : IsUnknown dds 144 loading
unfolding get_participant value_at find
loading-IsUnknown = record { nobody = refl; sorted = tt }

place_server_late_example :
    (l' : Loading dds) × (place_server dds document false five 144 9 late_server loading ≡ done l')
    × (l'.process.world ≡ 6)
    × (l'.process.events
        ≡ (1, participant_creation late_client)
          ∷ (
            2,
            participant_creation
                (record late_client { time = pos 5000000001; qos = 9; role = as_server }),
          )
          ∷ [])
    × (l'.queue ≡ 1 ∷ 2 ∷ [])
unfolding get_time creation_time removal_time new_pointer push_event ◌+ℤ◌
place_server_late_example =
    place_server_late dds false document five 144 9 late_server loading loading-IsUnknown
      (
        record {
          no_creation = refl;
          no_removal = refl;
          topic_name = "HelloWorldTopic";
          named = refl;
        },
        tt,
      )
      tt refl refl
