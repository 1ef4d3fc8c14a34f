-- ===== src/Events.antt =====
-- The events of include/LateJoiner.h: LateJoinerData and the classes derived from it. An event is an
-- object that others point to, so events stand in a store, under their pointers.
pub mod Kinds
pub mod Participants
pub mod Endpoints
pub mod Run
pub mod Lives
pub mod TakenOut
pub mod Linked
pub mod Orphans
pub mod OrderedManager
pub mod Tracked
pub mod TrackedEntities
pub mod TrackedEndpoints
pub mod TrackedParticipants
pub mod TrackedDestruction
pub mod Invariant
use discovery_server.Prelude.{
  ℕ, Bool, Option, none, some, List, String, ◌==◌, if◌then◌else◌, map_option, bind_option,
}
use discovery_server.Prelude.Int.{ltb_ℤ}
use discovery_server.OrderedSet.{find, modify}
use discovery_server.Item.{Guid, TimePoint}
use discovery_server.Manager.{Manager, Pointer, GuidMap, entry_guid}
use discovery_server.Dds.{Dds}
use discovery_server.Events.Kinds.{Kind}

-- GUID_t::unknown(): all octets are 0, so it is the first GUID.
abbrev pub unknown : Guid
unknown = 0

-- The member function that a creation calls: addServer, addClient or addSimple.
pub data Role : Type 0 where
  as_server : Role
  as_client : Role
  as_simple : Role

pub record DelayedParticipantCreation (qos_type : Type 0) : Type 0 where
  pub time : TimePoint
  pub qos : qos_type
  pub role : Role
  pub removal_event : Option Pointer
  pub participant_guid : Guid

pub record DelayedEndpointCreation : Type 0 where
  pub time : TimePoint
  pub topic_name : String
  pub type_name : String
  pub topic_profile_name : String
  pub endpoint_profile_name : String
  pub participant_guid : Guid
  pub linked_destruction_event : Option Pointer
  pub owner_event : Option Pointer

pub record DelayedSnapshot : Type 0 where
  pub time : TimePoint
  pub description : String
  pub if_someone : Bool
  pub show_liveliness : Bool

pub data Event (qos_type : Type 0) : Type 0 where
  participant_creation : DelayedParticipantCreation qos_type → Event qos_type
  participant_destruction : TimePoint → Guid → Event qos_type
  endpoint_creation : Kind → DelayedEndpointCreation → Event qos_type
  endpoint_destruction : Kind → TimePoint → Guid → Event qos_type
  snapshot : DelayedSnapshot → Event qos_type
  environment_modification : TimePoint → String → String → Event qos_type

module _ {Q : Type 0} where
  unfoldable pub execution_time : Event Q → TimePoint
  execution_time (participant_creation c) = c.time
  execution_time (participant_destruction t id) = t
  execution_time (endpoint_creation k c) = c.time
  execution_time (endpoint_destruction k t id) = t
  execution_time (snapshot s) = s.time
  execution_time (environment_modification t key value) = t

  -- operator < of LateJoinerData.
  unfoldable pub earlier : Event Q → Event Q → Bool
  unfolding execution_time
  earlier p1 p2 = ltb_ℤ (execution_time p1) (execution_time p2)

  -- DelayedParticipantDestruction::SetGuid.
  unfoldable pub set_participant_guid : Guid → Event Q → Event Q
  set_participant_guid id (participant_destruction t old) =
      participant_destruction t (if id == unknown then old else id)
  set_participant_guid id (participant_creation c) = participant_creation c
  set_participant_guid id (endpoint_creation k c) = endpoint_creation k c
  set_participant_guid id (endpoint_destruction k t old) = endpoint_destruction k t old
  set_participant_guid id (snapshot s) = snapshot s
  set_participant_guid id (environment_modification t key value) =
      environment_modification t key value

  -- DelayedEndpointDestruction::SetGuid: only an unknown GUID is written.
  unfoldable pub set_endpoint_guid : Guid → Event Q → Event Q
  set_endpoint_guid id (endpoint_destruction k t old) =
      endpoint_destruction k t (if old == unknown then id else old)
  set_endpoint_guid id (participant_creation c) = participant_creation c
  set_endpoint_guid id (participant_destruction t old) = participant_destruction t old
  set_endpoint_guid id (endpoint_creation k c) = endpoint_creation k c
  set_endpoint_guid id (snapshot s) = snapshot s
  set_endpoint_guid id (environment_modification t key value) = environment_modification t key value

  -- A write to the member participant_guid of a creation.
  unfoldable pub set_created_guid : Guid → Event Q → Event Q
  set_created_guid id (participant_creation c) =
      participant_creation (record c { participant_guid = id })
  set_created_guid id (participant_destruction t old) = participant_destruction t old
  set_created_guid id (endpoint_creation k c) = endpoint_creation k c
  set_created_guid id (endpoint_destruction k t old) = endpoint_destruction k t old
  set_created_guid id (snapshot s) = snapshot s
  set_created_guid id (environment_modification t key value) = environment_modification t key value

  -- A read of that member.
  unfoldable pub created_guid : Event Q → Option Guid
  created_guid (participant_creation c) = some c.participant_guid
  created_guid (participant_destruction t old) = none
  created_guid (endpoint_creation k c) = none
  created_guid (endpoint_destruction k t old) = none
  created_guid (snapshot s) = none
  created_guid (environment_modification t key value) = none

abbrev pub Store : Type 0 → Type 0
Store Q = List (Pointer × Event Q)

module _ {Q : Type 0} where
  abbrev pub event_pointer : Pointer × Event Q → Pointer
  event_pointer e = e.0

  -- A call of a member that changes the object behind a pointer, which may be null.
  unfoldable pub through : Option Pointer → (Event Q → Event Q) → Store Q → Store Q
  through none f es = es
  through (some p) f es = modify event_pointer p (λ e. (e.0, f e.1)) es

  unfoldable pub event_at : Pointer → Store Q → Option (Event Q)
  event_at p es = map_option (λ e. e.1) (find event_pointer p es)

-- The process while its events run: Fast DDS, the manager, the events, and the variable with
-- its value that the file of the environment holds, if one was written.
pub record Process (d : Dds) : Type 0 where
  pub world : d.World
  pub manager : Manager
  pub events : Store d.Qos
  pub environment : Option (String × String)
