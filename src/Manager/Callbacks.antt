-- ===== src/Manager/Callbacks.antt =====
-- The listener of DiscoveryServerManager, src/DiscoveryServerManager.cpp: how what Fast DDS reports
-- reaches the database. A callback is taken as one step, though it locks the manager and then the
-- database: that a removal of its participant comes in between is left out. The log, and the name of
-- the participant that it shows, are not modelled.
use discovery_server.Prelude.{Bool, not, ◌&&◌, String, if◌then◌else◌, is_none}
use discovery_server.Prelude.Int.{ℤ}
use discovery_server.OrderedSet.{find}
use discovery_server.Outcome.{Outcome, done, aborted}
use discovery_server.Item.{Guid, TimePoint}
use discovery_server.Snapshot.{Snapshot}
use discovery_server.Database.{add_participant, remove_participant}
use discovery_server.Database.Members.{
  add_data_reader, add_data_writer, remove_data_reader, remove_data_writer, update_sub_liveliness,
}
use discovery_server.Manager.{Manager, entry_guid}
use discovery_server.Manager.Maps.{get_participant}

-- ParticipantDiscoveryStatus, with one case for the values that the switch does not name.
pub data ParticipantStatus : Type 0 where
  discovered_participant : ParticipantStatus
  removed_participant : ParticipantStatus
  dropped_participant : ParticipantStatus
  other_status : ParticipantStatus

-- ReaderDiscoveryStatus and WriterDiscoveryStatus, in the same way.
pub data EndPointStatus : Type 0 where
  discovered_endpoint : EndPointStatus
  removed_endpoint : EndPointStatus
  other_reason : EndPointStatus

-- The participant that makes a callback.
pub record Origin : Type 0 where
  pub guid : Guid
  pub name : String

pub record ParticipantInfo : Type 0 where
  pub guid : Guid
  pub participant_name : String

pub record EndPointInfo : Type 0 where
  pub guid : Guid
  pub participant_guid : Guid
  pub type_name : String
  pub topic_name : String

abbrev pub with_state : Manager → Outcome (Bool × Snapshot) → Outcome Manager
with_state m (done r) = done (record m { state = r.1 })
with_state m aborted = aborted

-- `callback_time` is read in the callback, `now` again in the constructor of an item.
module _ (ndebug : Bool) (origin : Origin) (callback_time now : TimePoint) where
  unfoldable pub participant_reported :
      ParticipantStatus → ParticipantInfo → Bool → Manager → Outcome Manager
  participant_reported discovered_participant info server m = with_state m (
      add_participant ndebug origin.guid origin.name info.guid info.participant_name callback_time
        server now m.state)
  participant_reported removed_participant info server m =
      done (record m { state = (remove_participant origin.guid info.guid m.state).1 })
  participant_reported dropped_participant info server m =
      done (record m { state = (remove_participant origin.guid info.guid m.state).1 })
  participant_reported other_status info server m = done m

  unfoldable pub on_participant_discovery :
      ParticipantStatus → ParticipantInfo → Manager → Outcome Manager
  unfolding participant_reported
  on_participant_discovery status info m =
      if is_none (get_participant origin.guid m)
      then done m
      else participant_reported status info
          (not m.no_callbacks && not (is_none (find entry_guid info.guid m.servers)))
          (record m { last_pdp_callback = callback_time })

  unfoldable pub reader_reported : EndPointStatus → EndPointInfo → Manager → Outcome Manager
  reader_reported discovered_endpoint info m = with_state m (
      add_data_reader ndebug origin.guid origin.name info.participant_guid info.guid info.type_name
        info.topic_name callback_time now m.state)
  reader_reported removed_endpoint info m = done (record m {
    state = (remove_data_reader origin.guid info.participant_guid info.guid m.state).1;
  })
  reader_reported other_reason info m = done m

  unfoldable pub on_data_reader_discovery :
      EndPointStatus → EndPointInfo → Manager → Outcome Manager
  unfolding reader_reported
  on_data_reader_discovery reason info m =
      if is_none (get_participant origin.guid m)
      then done m
      else reader_reported reason info (record m { last_edp_callback = callback_time })

  unfoldable pub writer_reported : EndPointStatus → EndPointInfo → Manager → Outcome Manager
  writer_reported discovered_endpoint info m = with_state m (
      add_data_writer ndebug origin.guid origin.name info.participant_guid info.guid info.type_name
        info.topic_name callback_time now m.state)
  writer_reported removed_endpoint info m = done (record m {
    state = (remove_data_writer origin.guid info.participant_guid info.guid m.state).1;
  })
  writer_reported other_reason info m = done m

  unfoldable pub on_data_writer_discovery :
      EndPointStatus → EndPointInfo → Manager → Outcome Manager
  unfolding writer_reported
  on_data_writer_discovery reason info m =
      if is_none (get_participant origin.guid m)
      then done m
      else writer_reported reason info (record m { last_edp_callback = callback_time })

-- on_liveliness_changed, with the GUID of the reader.
unfoldable pub on_liveliness_changed : (Guid → Guid) → Guid → ℤ → ℤ → Manager → Manager
on_liveliness_changed owner_of sub_guid alive_count not_alive_count m = record m {
  state = update_sub_liveliness owner_of sub_guid alive_count not_alive_count m.state;
}
