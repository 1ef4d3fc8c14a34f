-- ===== src/Snapshot/RoundTrip.antt =====
-- Snapshot::to_xml and then Snapshot::from_xml, src/DiscoveryItem.cpp.
use discovery_server.Prelude.{
  ◌≡◌, refl, ap, ◌∙◌, Bool, true, false, ◌||◌, some, List, [], ◌∷◌, ◌++◌, map, String, str_eq, All,
}
use discovery_server.OrderedSet.Order.{IsSorted}
use discovery_server.Item.{TimePoint, participant_guid}
use discovery_server.Item.EndPoint.{HasSortedSets}
use discovery_server.Snapshot.{ParticipantDiscoveryDatabase, Snapshot, database_guid, new_snapshot}
use discovery_server.Xml.{Xml, GuidText}
use discovery_server.Ids.{s_pt_db, s_description}
use discovery_server.Snapshot.Writing.{database_to_xml, snapshot_attributes, to_xml}
use discovery_server.Snapshot.Reading.{
  database_from_xml, from_xml, read_each, times_from_xml, contents_from_xml,
}
use discovery_server.Snapshot.Reloaded.{
  any, reloaded_database, database_shows, reloaded, reloaded_startup, reloaded_time,
}
use discovery_server.Snapshot.LoopTrip.{
  Above-map, attribute-insert_each, children-insert_each, children-insert_others, read_each-map,
}
use discovery_server.Snapshot.DatabaseTrip.{database_trip, name-database_to_xml}

-- All sets of a database in GUID order.
pub record IsOrderedDatabase (db : ParticipantDiscoveryDatabase) : Type 0 where
  pub in_order : IsSorted participant_guid db.participants
  pub sets : All HasSortedSets db.participants

-- A snapshot in order, with a description.
pub record IsOrdered (s : Snapshot) : Type 0 where
  pub described : str_eq s.des "" ≡ false
  pub databases_in_order : IsSorted database_guid s.databases
  pub databases_ordered : All IsOrderedDatabase s.databases

module _ (x : Xml) (g : GuidText) (startup startup' : TimePoint) (show : Bool) where
  All-database_trip :
      (dbs : List ParticipantDiscoveryDatabase)
      → All IsOrderedDatabase dbs
      → All
          (λ db.
            (b : Bool)
            → database_from_xml x g startup' b (database_to_xml x g startup show db)
              ≡ some (
                reloaded_database g startup startup' show db,
                b || database_shows g startup startup' show db,
              ))
          dbs
  All-database_trip [] h = tt
  All-database_trip (db ∷ dbs) h = (
    λ b. database_trip x g startup startup' show db b h.0.in_order h.0.sets,
    All-database_trip dbs h.1,
  )

  databases_read :
      (dbs : List ParticipantDiscoveryDatabase)
      → IsSorted database_guid dbs
      → All IsOrderedDatabase dbs
      → read_each x g database_guid
          (database_from_xml x g startup')
          (map (database_to_xml x g startup show) dbs)
          []
          false
        ≡ some (
          map (reloaded_database g startup startup' show) dbs,
          any (database_shows g startup startup' show) dbs,
        )
  databases_read dbs s h =
      read_each-map x g database_guid (database_from_xml x g startup')
        (database_to_xml x g startup show) (reloaded_database g startup startup' show)
        (database_shows g startup startup' show) dbs [] false (All-database_trip dbs h)
        (Above-map database_guid (reloaded_database g startup startup' show) 0 dbs (λ db. refl) s)

module _ (x : Xml) (g : GuidText) (system_clock steady_clock : TimePoint) (root : String)
    (s : Snapshot) where
  open x use {
    Element, attribute, children, new_element, attribute-set_attribute, attribute-insert_end_child,
    children-set_attribute, children-insert_end_child, children-new_element, name-new_element,
    name-set_text, get_text-set_text, to_int-of_int, to_bool-of_bool,
  }

  abbrev pub written : Element
  written = to_xml x g system_clock steady_clock s (new_element root)

  attribute-written :
      (k : String)
      → attribute k written
        ≡ attribute k (snapshot_attributes x g system_clock steady_clock s (new_element root))
  unfolding to_xml
  attribute-written k =
      attribute-insert_each x g k (database_to_xml x g s.process_startup s.show_liveliness)
        s.databases _
      ∙ attribute-insert_end_child k _ _

  children-snapshot_attributes :
      (k : String)
      → children k (snapshot_attributes x g system_clock steady_clock s (new_element root)) ≡ []
  unfolding snapshot_attributes
  children-snapshot_attributes k = simp (children-set_attribute, children-new_element)

  no_databases :
      children s_pt_db (
        x.insert_end_child
          (x.set_text s.des (new_element s_description))
          (snapshot_attributes x g system_clock steady_clock s (new_element root)))
      ≡ []
  no_databases =
      simp
        (children-insert_end_child, name-set_text, name-new_element, children-snapshot_attributes)

  databases_of-written :
      children s_pt_db written
      ≡ map (database_to_xml x g s.process_startup s.show_liveliness) s.databases
  unfolding to_xml
  databases_of-written =
      children-insert_each x g s_pt_db (database_to_xml x g s.process_startup s.show_liveliness)
        s.databases _
        (λ db.
          rw (name-database_to_xml x g s.process_startup s.process_startup s.show_liveliness db)
            refl)
      ∙ ap (λ es. es ++ map (database_to_xml x g s.process_startup s.show_liveliness) s.databases)
          no_databases

  description_of-written :
      children s_description written ≡ x.set_text s.des (new_element s_description) ∷ []
  unfolding to_xml
  description_of-written =
      children-insert_others x g s_description
        (database_to_xml x g s.process_startup s.show_liveliness) s.databases _
        (λ db.
          rw (name-database_to_xml x g s.process_startup s.process_startup s.show_liveliness db)
            refl)
      ∙ simp
          (children-insert_end_child, name-set_text, name-new_element, children-snapshot_attributes)

  module _ (system_clock' steady_clock' : TimePoint) (h : IsOrdered s) where
    times_read :
        (s0 : Snapshot)
        → times_from_xml x g system_clock' steady_clock' written s0 ≡ record s0 {
          time = reloaded_time g system_clock steady_clock system_clock' steady_clock' s;
          process_startup =
              reloaded_startup g system_clock steady_clock system_clock' steady_clock' s;
          last_pdp_callback =
              (reloaded g system_clock steady_clock system_clock' steady_clock'
                s).last_pdp_callback;
          last_edp_callback =
              (reloaded g system_clock steady_clock system_clock' steady_clock'
                s).last_edp_callback;
          if_someone = s.if_someone;
        }
    unfolding times_from_xml snapshot_attributes
    times_read s0 =
        simp (attribute-written, attribute-set_attribute, to_int-of_int, to_bool-of_bool)

    contents_read :
        (s0 : Snapshot)
        → s0.databases ≡ []
        → s0.show_liveliness ≡ false
        → s0.process_startup
          ≡ reloaded_startup g system_clock steady_clock system_clock' steady_clock' s
        → contents_from_xml x g written s0
          ≡ some (record s0 {
            des = s.des;
            databases =
                (reloaded g system_clock steady_clock system_clock' steady_clock' s).databases;
            show_liveliness =
                (reloaded g system_clock steady_clock system_clock' steady_clock'
                  s).show_liveliness;
          })
    unfolding contents_from_xml
    contents_read s0 d l e = simp (
      d,
      l,
      e,
      description_of-written,
      databases_of-written,
      get_text-set_text s.des (new_element s_description) h.described,
      databases_read x g s.process_startup
          (reloaded_startup g system_clock steady_clock system_clock' steady_clock' s)
          s.show_liveliness s.databases h.databases_in_order h.databases_ordered,
    )

    root_read :
        (s0 : Snapshot)
        → from_xml x g system_clock' steady_clock' (some written) s0
          ≡ contents_from_xml x g written
              (times_from_xml x g system_clock' steady_clock' written s0)
    unfolding from_xml
    root_read s0 = refl

    -- For a snapshot in order that has a description, what from_xml reads of the element that to_xml wrote, in a process
    -- with any clocks and into a fresh snapshot, is the snapshot with its times rounded to
    -- milliseconds and rebased, without the names of the databases, and with the liveliness that was
    -- shown, of which only the number of living writers is left. The reading does not fail.
    pub from_xml-to_xml :
        (t : TimePoint)
        → from_xml x g system_clock' steady_clock'
            (some written)
            (new_snapshot steady_clock' t t t true false)
          ≡ some (reloaded g system_clock steady_clock system_clock' steady_clock' s)
    unfolding new_snapshot
    from_xml-to_xml t =
        root_read (new_snapshot steady_clock' t t t true false)
        ∙ ap (contents_from_xml x g written)
            (times_read (new_snapshot steady_clock' t t t true false))
        ∙ contents_read _ refl refl refl
