-- ===== src/Examples/Listening.antt =====
-- The maps and the callbacks of DiscoveryServerManager at the manager of the tests.
use discovery_server.Prelude.{◌≡◌, refl, true, false, none, some, List, [], ◌∷◌, arith, is_none}
use discovery_server.Prelude.Int.{pos}
use discovery_server.Outcome.{done}
use discovery_server.OrderedSet.{find}
use discovery_server.Item.{Guid, ParticipantDiscoveryItem}
use discovery_server.Snapshot.Lookup.{database_at, participant_at}
use discovery_server.Snapshot.Merge.{merge, database_at-merge}
use discovery_server.Database.{add_participant}
use discovery_server.Database.WellFormed.{IsWellFormed}
use discovery_server.OrderedSet.Order.{IsSorted}
use discovery_server.Snapshot.{database_guid}
use discovery_server.Manager.{Manager, take_snapshot, entry_guid, ParticipantCreatedEntityInfo}
use discovery_server.Manager.Maps.{
  add_server, assign, get_participant, remove_participant, value_at,
}
use discovery_server.Manager.Callbacks.{
  Origin, ParticipantInfo, on_participant_discovery, discovered_participant, participant_reported,
}
use discovery_server.Manager.Listener.{
  Event, participant_discovery, handle_all, handle_all-take_snapshot,
}
use discovery_server.Manager.Entities.{
  set_participant_topic, get_participant_topic_by_name, topic_of, topic_of-set_participant_topic,
  topic_of-get_participant_topic_by_name,
}
use discovery_server.Manager.Discovery.{participant_at-on_participant_discovery}
use discovery_server.Manager.Registry.{
  IsRegistry, get_participant-add_server, remove_participant_clears,
}
use discovery_server.Examples.{image, image-IsWellFormed, second}
use discovery_server.Examples.Operations.{with_participant}
use discovery_server.Examples.Managing.{manager}

abbrev origin : Origin
origin = record { guid = 1; name = "one" }

abbrev info : ParticipantInfo
info = record { guid = 7; participant_name = "new" }

abbrev after : Manager
after = record manager { last_pdp_callback = pos 8; state = with_participant }

discovery_run :
    on_participant_discovery true origin (pos 8) (pos 9) discovered_participant info manager
    ≡ done after
unfolding on_participant_discovery participant_reported get_participant find add_participant
discovery_run = refl

origin_known : is_none (get_participant 1 manager) ≡ false
unfolding get_participant find
origin_known = refl

participant_at-on_participant_discovery_example :
    (q : ParticipantDiscoveryItem) × (participant_at 1 7 with_participant ≡ some q)
    × (q.is_alive ≡ true)
    × (after.last_pdp_callback ≡ pos 8)
participant_at-on_participant_discovery_example =
    participant_at-on_participant_discovery true origin (pos 8) (pos 9) info manager
      image-IsWellFormed origin_known discovery_run

abbrev events : List Event
events = participant_discovery origin (pos 8) (pos 9) discovered_participant info ∷ []

events_run : handle_all true (λ g. g) (λ g. g) events manager ≡ done after
unfolding on_participant_discovery participant_reported get_participant find add_participant
events_run = refl

handle_all-take_snapshot_example :
    IsWellFormed with_participant
    × ((m : Manager) × (take_snapshot (pos 9) "end" true false after ≡ some m))
handle_all-take_snapshot_example =
    handle_all-take_snapshot true (λ g. g) (λ g. g) events manager (pos 9) "end" true false
      image-IsWellFormed events_run

manager-IsRegistry : IsRegistry manager
manager-IsRegistry = record {
  clients_sorted = (omega arith, tt);
  servers_sorted = (omega arith, tt);
  simples_sorted = tt;
  writers_sorted = tt;
  readers_sorted = tt;
  state_sorted = image-IsWellFormed.ordered;
}

abbrev with_server : Manager
with_server = record manager { servers = assign 6 60 manager.servers }

add_server_run : add_server true 6 60 manager ≡ done with_server
unfolding add_server
add_server_run = refl

get_participant-add_server_example : get_participant 6 with_server ≡ some 60
unfolding get_participant find
get_participant-add_server_example =
    get_participant-add_server true 6 6 60 manager manager-IsRegistry refl refl add_server_run

remove_participant_clears_example :
    (database_at 1 (remove_participant (λ g. g) 1 manager).1.state ≡ none)
    × (value_at 1 (remove_participant (λ g. g) 1 manager).1.data_writers ≡ none)
    × (value_at 1 (remove_participant (λ g. g) 1 manager).1.data_readers ≡ none)
    × ((remove_participant (λ g. g) 1 manager).0 ≡ some 10)
unfolding value_at find
remove_participant_clears_example =
    remove_participant_clears (λ g. g) 1 1 manager manager-IsRegistry

database_at-merge_example :
    IsSorted database_guid (merge image image).databases
    × (database_at 2 (merge image image) ≡ some second)
unfolding find
database_at-merge_example =
    database_at-merge 2 image image image-IsWellFormed.ordered image-IsWellFormed.ordered

-- Participant 1 with one topic.
abbrev entity : Guid × ParticipantCreatedEntityInfo
entity = (
  1,
  record {
    participant = some 10;
    publisher = none;
    publisher_topic = none;
    publisher_type = none;
    subscriber = none;
    subscriber_topic = none;
    subscriber_type = none;
    registered_topics = ("square", some 70) ∷ [];
  },
)

abbrev created : Manager
created = record manager { entity_map = entity ∷ [] }

created_known : find entry_guid 1 created.entity_map ≡ some entity
unfolding find
created_known = refl

topic_of-set_participant_topic_example :
    topic_of 1 "circle" (set_participant_topic (some 1) (some ("circle", 71)) created) ≡ some 71
topic_of-set_participant_topic_example =
    topic_of-set_participant_topic 1 1 "circle" "circle" 71 created (omega arith, tt) created_known

topic_of-get_participant_topic_by_name_example :
    topic_of 1 "square" (get_participant_topic_by_name (some 1) "circle" created).1
    ≡ topic_of 1 "square" created
topic_of-get_participant_topic_by_name_example =
    topic_of-get_participant_topic_by_name 1 1 "circle" "square" created (omega arith, tt)
