-- ===== src/Manager.antt =====
-- The state of DiscoveryServerManager, include/DiscoveryServerManager.h, and its snapshots,
-- src/DiscoveryServerManager.cpp. A pointer to an object of Fast DDS is a number, `none` is the
-- null pointer. `management_mutex` makes each member below that changes the manager one step.
pub mod Completion
pub mod Managed
pub mod Maps
pub mod Entities
pub mod Callbacks
pub mod Listener
pub mod Discovery
pub mod Registry
pub mod Validation
pub mod Files
pub mod Reload
pub mod Merging
pub mod Created
pub mod Termination
use discovery_server.Prelude.{
  ℕ, zero, suc, Bool, true, false, not, ◌&&◌, ◌||◌, Option, none, some, List, [], ◌∷◌, ◌++◌, String,
  ◌==◌, ltb, if◌then◌else◌, is_none, is_empty, bind_option, length,
}
use discovery_server.OrderedSet.{find, emplace, erase, modify}
use discovery_server.Item.{Guid, TimePoint}
use discovery_server.Snapshot.{ParticipantDiscoveryDatabase, Snapshot, database_guid, new_database}
use discovery_server.Compare.{database_eq}

-- A pointer that is not null.
abbrev pub Pointer : Type 0
Pointer = ℕ

-- std::map from GUIDs: its entries in the order of the keys.
abbrev pub GuidMap : Type 0 → Type 0
GuidMap A = List (Guid × A)

abbrev pub entry_guid : {A : Type 0} → Guid × A → Guid
entry_guid e = e.0

-- What the manager keeps of an entity that it has created for a participant.
pub record ParticipantCreatedEntityInfo : Type 0 where
  pub participant : Option Pointer
  pub publisher : Option Pointer
  pub publisher_topic : Option Pointer
  pub publisher_type : Option Pointer
  pub subscriber : Option Pointer
  pub subscriber_topic : Option Pointer
  pub subscriber_type : Option Pointer
  pub registered_topics : List (String × Option Pointer)

-- The events, the topic profiles and the listener for liveliness are left out: no function below
-- uses them.
pub record Manager : Type 0 where
  pub servers : GuidMap Pointer
  pub clients : GuidMap Pointer
  pub simples : GuidMap Pointer
  pub entity_map : GuidMap ParticipantCreatedEntityInfo
  pub data_readers : GuidMap Pointer
  pub data_writers : GuidMap Pointer
  pub state : Snapshot
  pub snapshots : List Snapshot
  pub no_callbacks : Bool
  pub auto_shutdown : Bool
  pub enable_prefix_validation : Bool
  pub correctly_created : Bool
  pub snapshots_output_file : String
  pub validate : Bool
  pub last_pdp_callback : TimePoint
  pub last_edp_callback : TimePoint
  pub shared_memory_off : Bool

-- insert of a range into a map: a key that is there keeps its value.
unfoldable pub insert_all : {A : Type 0} → GuidMap A → GuidMap A → GuidMap A
insert_all [] m = m
insert_all (e ∷ es) m = insert_all es (emplace entry_guid e m)

-- The participants that the manager runs: `temp` of takeSnapshot.
unfoldable pub managed : Manager → GuidMap Pointer
unfolding insert_all
managed m = insert_all m.simples (insert_all m.clients m.servers)

-- std::mismatch over the GUIDs.
unfoldable pub mismatch :
    GuidMap Pointer
    → List ParticipantDiscoveryDatabase
    → GuidMap Pointer × List ParticipantDiscoveryDatabase
mismatch [] it = ([], it)
mismatch (e ∷ es) [] = (e ∷ es, [])
mismatch (e ∷ es) (d ∷ ds) = if e.0 == d.endpoint_guid then mismatch es ds else (e ∷ es, d ∷ ds)

-- The iterator that emplace_hint returns: the set from the database `k` on.
unfoldable pub from_database :
    Guid → List ParticipantDiscoveryDatabase → List ParticipantDiscoveryDatabase
from_database k [] = []
from_database k (d ∷ ds) = if ltb d.endpoint_guid k then from_database k ds else d ∷ ds

-- The loop of takeSnapshot with fuel: `es` and `it` are the two iterators of the last mismatch.
unfoldable pub complete :
    ℕ
    → GuidMap Pointer
    → List ParticipantDiscoveryDatabase
    → List ParticipantDiscoveryDatabase
    → Option (List ParticipantDiscoveryDatabase)
unfolding mismatch from_database
complete zero es it shot = none
complete (suc n) [] it shot = some shot
complete (suc n) (e ∷ es) it shot =
    let shot' = emplace database_guid (new_database e.0 "") shot in
    let res = mismatch (e ∷ es) (from_database e.0 shot') in complete n res.0 res.1 shot'

-- The databases of a new snapshot, completed by the participants that made no callback.
unfoldable pub completed :
    GuidMap Pointer → List ParticipantDiscoveryDatabase → Option (List ParticipantDiscoveryDatabase)
unfolding complete mismatch
completed temp shot = let res = mismatch temp shot in complete (suc (length temp)) res.0 res.1 shot

-- takeSnapshot: the new snapshot is the last of the list.
unfoldable pub take_snapshot : TimePoint → String → Bool → Bool → Manager → Option Manager
unfolding completed managed
take_snapshot tp desc someone show_liveliness m =
    bind_option (completed (managed m) m.state.databases) λ dbs. some (record m {
      snapshots =
          m.snapshots
          ++ record (m.state) {
            time = tp;
            last_pdp_callback = m.last_pdp_callback;
            last_edp_callback = m.last_edp_callback;
            des = desc;
            if_someone = someone;
            show_liveliness = show_liveliness;
            databases = dbs;
          }
            ∷ [];
    })

-- The loop of allKnowEachOther: each database against the next.
unfoldable pub each_next :
    ParticipantDiscoveryDatabase → List ParticipantDiscoveryDatabase → Option Bool
each_next d [] = some true
each_next d (e ∷ ds) =
    let rest = each_next e ds in
    bind_option (database_eq d e) λ same. (if same then rest else some false)

abbrev pub nobody : List ParticipantDiscoveryDatabase → Bool
nobody [] = true
nobody (d ∷ ds) = is_empty d.participants

abbrev pub traverse : List ParticipantDiscoveryDatabase → Option Bool
unfolding each_next
traverse [] = some true
traverse (d ∷ ds) = each_next d ds

-- allKnowEachOther(shot).
unfoldable pub all_know_each_other : Snapshot → Option Bool
unfolding each_next
all_know_each_other shot =
    if shot.if_someone && nobody shot.databases then some false else traverse shot.databases

unfoldable pub validate_snapshots : List Snapshot → Bool → Option Bool
unfolding all_know_each_other
validate_snapshots [] work_it_all = some work_it_all
validate_snapshots (sh ∷ shs) work_it_all =
    bind_option (all_know_each_other sh)
      λ known. validate_snapshots shs (if known then work_it_all else false)

unfoldable pub validate_all_snapshots : Manager → Option Bool
unfolding validate_snapshots
validate_all_snapshots m = validate_snapshots m.snapshots true

unfoldable pub should_validate : Manager → Bool
should_validate m = m.validate && not (is_empty m.snapshots)
