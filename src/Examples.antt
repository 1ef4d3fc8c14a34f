-- ===== src/Examples.antt =====
-- A small image for the tests: participant 1 has discovered the living 3 and the zombie 5 with one
-- reader, participant 2 has discovered 3.
mod Operations
mod Threads
mod Document
mod Comparing
mod Managing
mod Listening
mod Reloading
mod Running
mod Loading
mod Exiting
use discovery_server.Prelude.{
  ℕ, ◌+◌, ◌≡◌, ◌≢◌, refl, Bool, true, false, not, Option, none, some, List, [], ◌∷◌, String, arith,
  if◌then◌else◌, ◌==◌, All, is_none, ltb, length, ◌<◌, bind_option,
}
use discovery_server.Prelude.Int.{ℤ, pos}
use discovery_server.Outcome.{done}
use discovery_server.OrderedSet.{lower_bound, find, seek, at_key, emplace, erase, modify}
use discovery_server.Item.{
  Guid, TimePoint, DataReaderDiscoveryItem, ParticipantDiscoveryItem, new_participant, acknowledge,
  count_endpoints, participant_guid,
}
use discovery_server.Item.EndPoint.{HasSortedSets, readers, writers, new_reader}
use discovery_server.Item.Equality.{participant_eq, participant_ne, set_eq}
use discovery_server.Snapshot.{
  ParticipantDiscoveryDatabase, Snapshot, new_snapshot, new_database, write_participants,
  access_snapshot, participants_of,
}
use discovery_server.Snapshot.Lookup.{participant_at, database_at}
use discovery_server.Database.{
  register, add_participant, remove_participant, add_end_point, add_to_participants,
  remove_end_point, enter_endpoint, remove_database, without_endpoint,
}
use discovery_server.Database.Members.{
  add_data_reader, count_participants, count_readers_of, count_writers_of,
}
use discovery_server.Database.Invariant.{IsValidItem, AreValid}
use discovery_server.Database.WellFormed.{IsWellFormed}
use discovery_server.Database.Participants.{registered, participant_at-add_participant}
use discovery_server.Database.Removal.{
  buried, participant_at-remove_participant, remove_participant_enters,
}
use discovery_server.Database.Endpoints.{
  participant_at-add_known, participant_at-add_misfiled, participant_at-add_entered, endpoint_at,
  endpoint_at-enter_endpoint,
}
use discovery_server.Database.EndpointRemoval.{participant_at-remove_end_point, remove-add}
use discovery_server.Database.Counts.{
  count_participants-add_participant, count_readers_of-add_data_reader,
}
use discovery_server.Database.Steps.{
  Step, Reach, here, next, participant_added, reader_added, Reach-IsWellFormed, zombie_owns-Reach,
}
use discovery_server.Compare.{database_eq}
use discovery_server.Compare.Exact.{database_eq_exact, visible_of}
use discovery_server.Compare.Sound.{database_eq_sound}
use discovery_server.Compare.Relation.{database_eq_terminates, database_eq_refl, database_eq_comm}

abbrev pub reader : DataReaderDiscoveryItem
reader = record {
  endpoint_guid = 51;
  type_name = "HelloWorld";
  topic_name = "topic";
  discovered_timestamp = pos 7;
  alive_count = pos 0;
  not_alive_count = pos 0;
}

abbrev pub living : ParticipantDiscoveryItem
living = record {
  endpoint_guid = 3;
  is_server = false;
  is_alive = true;
  participant_name = "client";
  discovered_timestamp = pos 5;
  datawriters = [];
  datareaders = [];
}

abbrev pub zombie : ParticipantDiscoveryItem
zombie = record {
  endpoint_guid = 5;
  is_server = false;
  is_alive = false;
  participant_name = "gone";
  discovered_timestamp = pos 6;
  datawriters = [];
  datareaders = reader ∷ [];
}

abbrev pub first : ParticipantDiscoveryDatabase
first = record { endpoint_guid = 1; participant_name = "one"; participants = living ∷ zombie ∷ [] }

abbrev pub second : ParticipantDiscoveryDatabase
second = record { endpoint_guid = 2; participant_name = "two"; participants = living ∷ [] }

abbrev pub image : Snapshot
image = record {
  process_startup = pos 0;
  time = pos 1;
  last_pdp_callback = pos 1;
  last_edp_callback = pos 1;
  if_someone = true;
  show_liveliness = false;
  des = "";
  databases = first ∷ second ∷ [];
}

pub living-IsValidItem : IsValidItem living
living-IsValidItem = record {
  sets = record { writers_sorted = tt; readers_sorted = tt };
  zombie_owns = λ e. cc;
}

pub zombie-IsValidItem : IsValidItem zombie
unfolding count_endpoints
zombie-IsValidItem = record {
  sets = record { writers_sorted = tt; readers_sorted = (omega arith, tt) };
  zombie_owns = λ e. omega arith;
}

pub image-IsWellFormed : IsWellFormed image
image-IsWellFormed = record {
  ordered = (omega arith, (omega arith, tt));
  valid = (
    ((omega arith, (omega arith, tt)), (living-IsValidItem, (zombie-IsValidItem, tt))),
    (((omega arith, tt), (living-IsValidItem, tt)), tt),
  );
}
