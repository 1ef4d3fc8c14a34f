-- ===== src/Snapshot/Reading.antt =====
-- Snapshot::from_xml, src/DiscoveryItem.cpp. `none` is that the code makes a std::string of a null
-- pointer, which the library refuses: an attribute or a text that it needs is missing.
use discovery_server.Prelude.{
  Bool, true, false, ◌||◌, Option, none, some, List, [], ◌∷◌, String, ◌>>=◌, bind_option,
  from_option,
}
use discovery_server.Prelude.Int.{ℤ, ◌+ℤ◌, ◌-ℤ◌}
use discovery_server.OrderedSet.{emplace}
use discovery_server.Item.{
  Guid, TimePoint, DataReaderDiscoveryItem, DataWriterDiscoveryItem, ParticipantDiscoveryItem,
  reader_guid, writer_guid, participant_guid, new_participant,
}
use discovery_server.Item.EndPoint.{new_reader, new_writer}
use discovery_server.Snapshot.{ParticipantDiscoveryDatabase, Snapshot, database_guid, new_database}
use discovery_server.Xml.{Xml, GuidText, int64_attribute, bool_attribute}
use discovery_server.Clock.{from_ms}
use discovery_server.Ids.{
  s_timestamp, s_process_time, s_last_pdp_callback, s_last_edp_callback, s_someone, s_description,
  s_pt_db, s_pt_di, s_publisher, s_subscriber, s_guid_prefix, s_guid_entity, s_server, s_alive,
  s_name, s_topic, s_type, s_alive_count, s_not_alive_count, s_discovered_timestamp,
}

module _ (x : Xml) (g : GuidText) where
  open x use {Element, attribute, get_text, children, to_int}

  unfoldable pub get_guid : Element → Option Guid
  get_guid e = do
    prefix ← attribute s_guid_prefix e
    entity ← attribute s_guid_entity e
    some (g.read_guid prefix entity)

  unfoldable pub get_discovered : TimePoint → Element → TimePoint
  unfolding from_ms int64_attribute
  get_discovered process_startup e =
      process_startup +ℤ from_ms (int64_attribute x s_discovered_timestamp e)

  -- QueryAttribute into a field: one that is there but is no number leaves the field.
  unfoldable pub query_count : String → Element → ℤ → ℤ
  query_count k e old = from_option (bind_option (attribute k e) to_int) old

  -- The two queries are joined by `||`: where the first attribute is there, the second is not read.
  unfoldable pub get_liveliness : Element → DataReaderDiscoveryItem → DataReaderDiscoveryItem × Bool
  unfolding query_count
  get_liveliness e sub = elim (attribute s_alive_count e) [
    | some v ↦ (record sub { alive_count = query_count s_alive_count e sub.alive_count }, true)
    | none ↦ elim (attribute s_not_alive_count e) [
      | some v ↦ (
        record sub { not_alive_count = query_count s_not_alive_count e sub.not_alive_count },
        true,
      )
      | none ↦ (sub, false)
    ]
  ]

  -- A loop that reads the members of a set and inserts them; the flag is show_liveliness_.
  unfoldable pub read_each :
      {A : Type 0}
      → (A → Guid)
      → (Bool → Element → Option (A × Bool))
      → List Element
      → List A
      → Bool
      → Option (List A × Bool)
  read_each key f [] acc shown = some (acc, shown)
  read_each key f (e ∷ es) acc shown =
      bind_option (f shown e) λ r. read_each key f es (emplace key r.0 acc) r.1

  unfoldable pub reader_from_xml :
      TimePoint → Bool → Element → Option (DataReaderDiscoveryItem × Bool)
  unfolding get_guid get_discovered get_liveliness new_reader
  reader_from_xml process_startup shown e = do
    guid ← get_guid e
    type ← attribute s_type e
    topic ← attribute s_topic e
    let r = get_liveliness e (new_reader guid type topic (get_discovered process_startup e))
    some (r.0, shown || r.1)

  unfoldable pub writer_from_xml :
      TimePoint → Bool → Element → Option (DataWriterDiscoveryItem × Bool)
  unfolding get_guid get_discovered new_writer
  writer_from_xml process_startup shown e = do
    guid ← get_guid e
    type ← attribute s_type e
    topic ← attribute s_topic e
    some (new_writer guid type topic (get_discovered process_startup e), shown)

  unfoldable pub participant_from_xml :
      TimePoint → Bool → Element → Option (ParticipantDiscoveryItem × Bool)
  unfolding get_guid get_discovered new_participant bool_attribute read_each
  participant_from_xml process_startup shown e = do
    guid ← get_guid e
    name ← attribute s_name e
    let p =
        new_participant guid name (bool_attribute x s_server false e)
          (get_discovered process_startup e)
    subs ←
        read_each reader_guid (reader_from_xml process_startup) (children s_subscriber e) [] shown
    wrs ← read_each writer_guid (writer_from_xml process_startup) (children s_publisher e) [] subs.1
    some (
      record p {
        is_alive = bool_attribute x s_alive p.is_alive e;
        datareaders = subs.0;
        datawriters = wrs.0;
      },
      wrs.1,
    )

  -- The name of the database is not read.
  unfoldable pub database_from_xml :
      TimePoint → Bool → Element → Option (ParticipantDiscoveryDatabase × Bool)
  unfolding get_guid new_database read_each
  database_from_xml process_startup shown e = do
    guid ← get_guid e
    ps ←
        read_each participant_guid (participant_from_xml process_startup) (children s_pt_di e) []
          shown
    some (record (new_database guid "") { participants = ps.0 }, ps.1)

  -- The times and the flag `if_someone`.
  unfoldable pub times_from_xml : TimePoint → TimePoint → Element → Snapshot → Snapshot
  unfolding from_ms int64_attribute bool_attribute
  times_from_xml system_clock steady_clock root s =
      let time = (from_ms (int64_attribute x s_timestamp root) -ℤ system_clock) +ℤ steady_clock in
      let startup = time -ℤ from_ms (int64_attribute x s_process_time root) in
      record s {
        time = time;
        process_startup = startup;
        last_pdp_callback = startup +ℤ from_ms (int64_attribute x s_last_pdp_callback root);
        last_edp_callback = startup +ℤ from_ms (int64_attribute x s_last_edp_callback root);
        if_someone = bool_attribute x s_someone true root;
      }

  unfoldable pub description_from_xml : List Element → String → Option String
  description_from_xml [] old = some old
  description_from_xml (e ∷ es) old = get_text e

  -- The description and the databases.
  unfoldable pub contents_from_xml : Element → Snapshot → Option Snapshot
  unfolding description_from_xml read_each
  contents_from_xml root s = do
    des ← description_from_xml (children s_description root) s.des
    r ←
        read_each database_guid (database_from_xml s.process_startup) (children s_pt_db root)
          s.databases s.show_liveliness
    some (record s { des = des; databases = r.0; show_liveliness = r.1 })

  unfoldable pub from_xml : TimePoint → TimePoint → Option Element → Snapshot → Option Snapshot
  unfolding times_from_xml contents_from_xml
  from_xml system_clock steady_clock none s = some s
  from_xml system_clock steady_clock (some root) s =
      contents_from_xml root (times_from_xml system_clock steady_clock root s)
