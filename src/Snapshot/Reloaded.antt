-- ===== src/Snapshot/Reloaded.antt =====
-- What becomes of a snapshot that src/DiscoveryItem.cpp writes to XML and reads again: what is kept,
-- and what is not.
use discovery_server.Prelude.{Bool, false, ◌&&◌, ◌||◌, List, [], ◌∷◌, map, if◌then◌else◌}
use discovery_server.Prelude.Int.{pos, ◌+ℤ◌, ◌-ℤ◌}
use discovery_server.Item.{
  Guid, TimePoint, DataReaderDiscoveryItem, DataWriterDiscoveryItem, ParticipantDiscoveryItem,
}
use discovery_server.Snapshot.{ParticipantDiscoveryDatabase, Snapshot}
use discovery_server.Xml.{GuidText}
use discovery_server.Clock.{to_ms, from_ms, get_system_time}

abbrev pub any : {A : Type 0} → (A → Bool) → List A → Bool
any p [] = false
any p (a ∷ as') = p a || any p as'

-- A time that is written against one start of the process and read against another.
abbrev pub rebased : TimePoint → TimePoint → TimePoint → TimePoint
rebased startup startup' t = startup' +ℤ from_ms (to_ms (t -ℤ startup))

module _ (g : GuidText) (startup startup' : TimePoint) (show : Bool) where
  abbrev pub is_shown : Guid → DataReaderDiscoveryItem → Bool
  is_shown owner r = show && g.same_prefix r.endpoint_guid owner

  -- The number of writers that are not alive is lost, and without liveliness the other one too.
  abbrev pub reloaded_reader : Guid → DataReaderDiscoveryItem → DataReaderDiscoveryItem
  reloaded_reader owner r = record r {
    discovered_timestamp = rebased startup startup' r.discovered_timestamp;
    alive_count = if is_shown owner r then r.alive_count else pos 0;
    not_alive_count = pos 0;
  }

  abbrev pub reloaded_writer : DataWriterDiscoveryItem → DataWriterDiscoveryItem
  reloaded_writer w = record w {
    discovered_timestamp = rebased startup startup' w.discovered_timestamp;
  }

  abbrev pub reloaded_participant : Guid → ParticipantDiscoveryItem → ParticipantDiscoveryItem
  reloaded_participant owner p = record p {
    discovered_timestamp = rebased startup startup' p.discovered_timestamp;
    datareaders = map (reloaded_reader owner) p.datareaders;
    datawriters = map reloaded_writer p.datawriters;
  }

  -- The name of the participant that a database belongs to is lost.
  abbrev pub reloaded_database : ParticipantDiscoveryDatabase → ParticipantDiscoveryDatabase
  reloaded_database db = record db {
    participant_name = "";
    participants = map (reloaded_participant db.endpoint_guid) db.participants;
  }

  abbrev pub participant_shows : Guid → ParticipantDiscoveryItem → Bool
  participant_shows owner p = any (is_shown owner) p.datareaders

  abbrev pub database_shows : ParticipantDiscoveryDatabase → Bool
  database_shows db = any (participant_shows db.endpoint_guid) db.participants

-- The clocks of the process that writes, and of the one that reads.
module _ (g : GuidText) (system_clock steady_clock system_clock' steady_clock' : TimePoint) where
  abbrev pub reloaded_time : Snapshot → TimePoint
  reloaded_time s =
      (from_ms (to_ms (get_system_time system_clock steady_clock s.time)) -ℤ system_clock')
      +ℤ steady_clock'

  abbrev pub reloaded_startup : Snapshot → TimePoint
  reloaded_startup s = reloaded_time s -ℤ from_ms (to_ms (s.time -ℤ s.process_startup))

  -- Liveliness is shown afterwards only if some reader shows it.
  abbrev pub reloaded : Snapshot → Snapshot
  reloaded s = record {
    process_startup = reloaded_startup s;
    time = reloaded_time s;
    last_pdp_callback = rebased s.process_startup (reloaded_startup s) s.last_pdp_callback;
    last_edp_callback = rebased s.process_startup (reloaded_startup s) s.last_edp_callback;
    if_someone = s.if_someone;
    show_liveliness =
        any (database_shows g s.process_startup (reloaded_startup s) s.show_liveliness) s.databases;
    des = s.des;
    databases =
        map (reloaded_database g s.process_startup (reloaded_startup s) s.show_liveliness)
          s.databases;
  }
