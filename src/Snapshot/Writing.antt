-- ===== src/Snapshot/Writing.antt =====
-- Snapshot::to_xml, src/DiscoveryItem.cpp. Times are milliseconds from the start of the process, but
-- for the time stamp, which is from the epoch.
use discovery_server.Prelude.{Bool, ◌&&◌, List, [], ◌∷◌, if◌then◌else◌}
use discovery_server.Prelude.Int.{◌-ℤ◌}
use discovery_server.Item.{
  Guid, TimePoint, DataReaderDiscoveryItem, DataWriterDiscoveryItem, ParticipantDiscoveryItem,
}
use discovery_server.Snapshot.{ParticipantDiscoveryDatabase, Snapshot}
use discovery_server.Xml.{Xml, GuidText}
use discovery_server.Clock.{to_ms, get_system_time}
use discovery_server.Ids.{
  s_timestamp, s_process_time, s_last_pdp_callback, s_last_edp_callback, s_someone, s_description,
  s_pt_db, s_pt_di, s_publisher, s_subscriber, s_guid_prefix, s_guid_entity, s_server, s_alive,
  s_name, s_topic, s_type, s_alive_count, s_not_alive_count, s_discovered_timestamp,
}

module _ (x : Xml) (g : GuidText) where
  open x use {Element, new_element, set_attribute, set_text, insert_end_child, of_int, of_bool}

  -- The two attributes of a GUID.
  unfoldable pub set_guid : Guid → Element → Element
  set_guid guid e =
      set_attribute s_guid_entity (g.entity_text guid)
        (set_attribute s_guid_prefix (g.prefix_text guid) e)

  unfoldable pub set_discovered : TimePoint → TimePoint → Element → Element
  unfolding to_ms
  set_discovered process_startup t e =
      set_attribute s_discovered_timestamp (of_int (to_ms (t -ℤ process_startup))) e

  unfoldable pub set_liveliness_counts : DataReaderDiscoveryItem → Element → Element
  set_liveliness_counts sub e =
      set_attribute s_not_alive_count (of_int sub.not_alive_count)
        (set_attribute s_alive_count (of_int sub.alive_count) e)

  -- Liveliness is shown for the endpoints of the participant that the database belongs to.
  unfoldable pub shows_liveliness : Bool → Guid → DataReaderDiscoveryItem → Bool
  shows_liveliness show_liveliness owner sub =
      show_liveliness && g.same_prefix sub.endpoint_guid owner

  unfoldable pub reader_to_xml : TimePoint → Bool → Guid → DataReaderDiscoveryItem → Element
  unfolding set_guid set_discovered set_liveliness_counts shows_liveliness
  reader_to_xml process_startup show_liveliness owner sub =
      let e = set_discovered process_startup sub.discovered_timestamp (
        set_guid sub.endpoint_guid (
          set_attribute s_topic sub.topic_name
            (set_attribute s_type sub.type_name (new_element s_subscriber)))) in
      if shows_liveliness show_liveliness owner sub then set_liveliness_counts sub e else e

  unfoldable pub writer_to_xml : TimePoint → DataWriterDiscoveryItem → Element
  unfolding set_guid set_discovered
  writer_to_xml process_startup wr = set_discovered process_startup wr.discovered_timestamp (
      set_guid wr.endpoint_guid (
        set_attribute s_topic wr.topic_name
          (set_attribute s_type wr.type_name (new_element s_publisher))))

  -- A loop that appends the elements of the members of a set.
  unfoldable pub insert_each : {A : Type 0} → (A → Element) → List A → Element → Element
  insert_each f [] e = e
  insert_each f (a ∷ as') e = insert_each f as' (insert_end_child (f a) e)

  unfoldable pub participant_attributes : TimePoint → ParticipantDiscoveryItem → Element
  unfolding set_guid set_discovered
  participant_attributes process_startup p = set_discovered process_startup p.discovered_timestamp (
      set_attribute s_name p.participant_name (
        set_attribute s_alive (of_bool p.is_alive) (
          set_attribute s_server (of_bool p.is_server)
            (set_guid p.endpoint_guid (new_element s_pt_di)))))

  unfoldable pub participant_to_xml : TimePoint → Bool → Guid → ParticipantDiscoveryItem → Element
  unfolding participant_attributes insert_each
  participant_to_xml process_startup show_liveliness owner p =
      insert_each (writer_to_xml process_startup) p.datawriters (
        insert_each (reader_to_xml process_startup show_liveliness owner) p.datareaders
          (participant_attributes process_startup p))

  unfoldable pub database_attributes : ParticipantDiscoveryDatabase → Element
  unfolding set_guid
  database_attributes db =
      set_attribute s_name db.participant_name (set_guid db.endpoint_guid (new_element s_pt_db))

  unfoldable pub database_to_xml : TimePoint → Bool → ParticipantDiscoveryDatabase → Element
  unfolding insert_each database_attributes
  database_to_xml process_startup show_liveliness db =
      insert_each (participant_to_xml process_startup show_liveliness db.endpoint_guid)
        db.participants (database_attributes db)

  unfoldable pub snapshot_attributes : TimePoint → TimePoint → Snapshot → Element → Element
  unfolding to_ms get_system_time
  snapshot_attributes system_clock steady_clock s root =
      set_attribute s_someone (of_bool s.if_someone) (
        set_attribute s_last_edp_callback
          (of_int (to_ms (s.last_edp_callback -ℤ s.process_startup)))
          (set_attribute s_last_pdp_callback
            (of_int (to_ms (s.last_pdp_callback -ℤ s.process_startup)))
            (set_attribute s_process_time (of_int (to_ms (s.time -ℤ s.process_startup))) (
              set_attribute s_timestamp
                (of_int (to_ms (get_system_time system_clock steady_clock s.time))) root))))

  unfoldable pub to_xml : TimePoint → TimePoint → Snapshot → Element → Element
  unfolding snapshot_attributes insert_each
  to_xml system_clock steady_clock s root =
      insert_each (database_to_xml s.process_startup s.show_liveliness) s.databases (
        insert_end_child (set_text s.des (new_element s_description))
          (snapshot_attributes system_clock steady_clock s root))
