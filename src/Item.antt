-- ===== src/Item.antt =====
-- The discovery items of include/DiscoveryItem.h and src/DiscoveryItem.cpp: what one participant
-- has heard of another and of its endpoints. A GUID_t is read as its place in the total order
-- that GUID_t::operator< gives the sixteen octets, so `<` and `==` on GUIDs are those of numbers;
-- what else is asked of a GUID (its prefix, the participant it belongs to) is a parameter.
pub mod EndPoint
pub mod Equality
use discovery_server.Prelude.{◌≡◌, refl, ℕ, ◌+◌, Bool, true, List, [], String, length}
use discovery_server.Prelude.Int.{ℤ}

abbrev pub Guid : Type 0
Guid = ℕ

-- A steady_clock::time_point in nanoseconds.
abbrev pub TimePoint : Type 0
TimePoint = ℤ

pub record DataWriterDiscoveryItem : Type 0 where
  pub endpoint_guid : Guid
  pub type_name : String
  pub topic_name : String
  pub discovered_timestamp : TimePoint

pub record DataReaderDiscoveryItem : Type 0 where
  pub endpoint_guid : Guid
  pub type_name : String
  pub topic_name : String
  pub discovered_timestamp : TimePoint
  pub alive_count : ℤ
  pub not_alive_count : ℤ

pub record ParticipantDiscoveryItem : Type 0 where
  pub endpoint_guid : Guid
  pub is_server : Bool
  pub is_alive : Bool
  pub participant_name : String
  pub discovered_timestamp : TimePoint
  pub datawriters : List DataWriterDiscoveryItem
  pub datareaders : List DataReaderDiscoveryItem

-- The order of a std::set of items is that of DiscoveryItem::operator<, the order of the GUIDs.
abbrev pub writer_guid : DataWriterDiscoveryItem → Guid
writer_guid w = w.endpoint_guid

abbrev pub reader_guid : DataReaderDiscoveryItem → Guid
reader_guid r = r.endpoint_guid

abbrev pub participant_guid : ParticipantDiscoveryItem → Guid
participant_guid p = p.endpoint_guid

-- The constructor of ParticipantDiscoveryItem.
unfoldable pub new_participant : Guid → String → Bool → TimePoint → ParticipantDiscoveryItem
new_participant id name server discovered_timestamp = record {
  endpoint_guid = id;
  is_server = server;
  is_alive = true;
  participant_name = name;
  discovered_timestamp = discovered_timestamp;
  datawriters = [];
  datareaders = [];
}

unfoldable pub acknowledge : Bool → ParticipantDiscoveryItem → ParticipantDiscoveryItem
acknowledge alive p = record p { is_alive = alive }

unfoldable pub set_name : String → ParticipantDiscoveryItem → ParticipantDiscoveryItem
set_name name p = record p { participant_name = name }

unfoldable pub set_server : Bool → ParticipantDiscoveryItem → ParticipantDiscoveryItem
set_server s p = record p { is_server = s }

unfoldable pub set_discovered_timestamp :
    TimePoint → ParticipantDiscoveryItem → ParticipantDiscoveryItem
set_discovered_timestamp discovered_timestamp p = record p {
  discovered_timestamp = discovered_timestamp;
}

unfoldable pub count_data_readers : ParticipantDiscoveryItem → ℕ
count_data_readers p = length p.datareaders

unfoldable pub count_data_writers : ParticipantDiscoveryItem → ℕ
count_data_writers p = length p.datawriters

unfoldable pub count_endpoints : ParticipantDiscoveryItem → ℕ
count_endpoints p = length p.datawriters + length p.datareaders

pub new_participant_guid :
    (id : Guid) (name : String) (server : Bool) (t : TimePoint)
    → (new_participant id name server t).endpoint_guid ≡ id
unfolding new_participant
new_participant_guid id name server t = refl

pub acknowledge_guid :
    (alive : Bool) (p : ParticipantDiscoveryItem)
    → (acknowledge alive p).endpoint_guid ≡ p.endpoint_guid
unfolding acknowledge
acknowledge_guid alive p = refl
