-- ===== src/Snapshot.antt =====
-- ParticipantDiscoveryDatabase and Snapshot of include/DiscoveryItem.h, and the members of
-- Snapshot in src/DiscoveryItem.cpp that reach and merge databases. A reference to a database is
-- its GUID, the key under which the set keeps it.
pub mod Lookup
pub mod Merge
pub mod Writing
pub mod Reading
pub mod Reloaded
pub mod EndpointTrip
pub mod LoopTrip
pub mod ParticipantTrip
pub mod DatabaseTrip
pub mod RoundTrip
pub mod Rounding
pub mod Harmless
use discovery_server.Prelude.{
  ℕ, Bool, Option, none, some, List, [], String, if◌then◌else◌, is_none, bind_option, length,
}
use discovery_server.OrderedSet.{find, seek, emplace, modify}
use discovery_server.Item.{Guid, TimePoint, ParticipantDiscoveryItem, participant_guid}

-- What one participant, the spokesman, has discovered.
pub record ParticipantDiscoveryDatabase : Type 0 where
  pub endpoint_guid : Guid
  pub participant_name : String
  pub participants : List ParticipantDiscoveryItem

abbrev pub database_guid : ParticipantDiscoveryDatabase → Guid
database_guid db = db.endpoint_guid

unfoldable pub new_database : Guid → String → ParticipantDiscoveryDatabase
new_database id name = record { endpoint_guid = id; participant_name = name; participants = [] }

pub record Snapshot : Type 0 where
  pub process_startup : TimePoint
  pub time : TimePoint
  pub last_pdp_callback : TimePoint
  pub last_edp_callback : TimePoint
  pub if_someone : Bool
  pub show_liveliness : Bool
  pub des : String
  pub databases : List ParticipantDiscoveryDatabase

-- The constructor of Snapshot; the first argument is Snapshot::_steady_clock.
unfoldable pub new_snapshot : TimePoint → TimePoint → TimePoint → TimePoint → Bool → Bool → Snapshot
new_snapshot steady_clock t pdp_cb edp_cb someone show_liveliness = record {
  process_startup = steady_clock;
  time = t;
  last_pdp_callback = pdp_cb;
  last_edp_callback = edp_cb;
  if_someone = someone;
  show_liveliness = show_liveliness;
  des = "";
  databases = [];
}

-- access_snapshot: the reference that it returns is to the database `id` of the new snapshot.
unfoldable pub access_snapshot : Guid → String → Snapshot → Snapshot
access_snapshot id name s = record s {
  databases =
      if is_none (seek database_guid id s.databases)
      then emplace database_guid (new_database id name) s.databases
      else s.databases;
}

-- operator [] of a snapshot that is not const: it enters a database with no name.
unfoldable pub subscript : Guid → Snapshot → Snapshot
subscript id s = record s {
  databases =
      if is_none (seek database_guid id s.databases)
      then emplace database_guid (new_database id "") s.databases
      else s.databases;
}

-- operator [] of a const snapshot.
unfoldable pub subscript_const : Guid → Snapshot → Option ParticipantDiscoveryDatabase
subscript_const id s = seek database_guid id s.databases

-- Writes to the participants through a reference to the database `id`.
unfoldable pub write_participants :
    Guid → (List ParticipantDiscoveryItem → List ParticipantDiscoveryItem) → Snapshot → Snapshot
write_participants id f s = record s {
  databases =
      modify database_guid id (λ db. record db { participants = f db.participants }) s.databases;
}

-- Reads through the same reference: the participants of the database `id`.
unfoldable pub participants_of : Guid → Snapshot → List ParticipantDiscoveryItem
participants_of id s = elim (find database_guid id s.databases) [
  | none ↦ []
  | some db ↦ db.participants
]
