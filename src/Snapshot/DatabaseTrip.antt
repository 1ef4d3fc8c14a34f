-- ===== src/Snapshot/DatabaseTrip.antt =====
-- The XML elements of databases, written and read: src/DiscoveryItem.cpp.
use discovery_server.Prelude.{
  ◌≡◌, refl, ap, ◌∙◌, Bool, ◌||◌, some, List, [], ◌∷◌, ◌++◌, map, String, All,
}
use discovery_server.OrderedSet.Order.{IsSorted}
use discovery_server.Item.{Guid, TimePoint, ParticipantDiscoveryItem, participant_guid}
use discovery_server.Item.EndPoint.{HasSortedSets}
use discovery_server.Snapshot.{ParticipantDiscoveryDatabase}
use discovery_server.Xml.{Xml, GuidText}
use discovery_server.Ids.{s_pt_di, s_pt_db}
use discovery_server.Snapshot.Writing.{participant_to_xml, database_attributes, database_to_xml}
use discovery_server.Snapshot.Reading.{participant_from_xml, database_from_xml, read_each}
use discovery_server.Snapshot.Reloaded.{
  any, reloaded_participant, reloaded_database, participant_shows, database_shows,
}
use discovery_server.Snapshot.ParticipantTrip.{participant_trip, name-participant_to_xml}
use discovery_server.Snapshot.LoopTrip.{
  Above-map, attribute-insert_each, name-insert_each, children-insert_each, read_each-map,
}

module _ (x : Xml) (g : GuidText) (startup startup' : TimePoint) (show : Bool) where
  open x use {
    name, attribute, children, name-new_element, name-set_attribute, children-new_element,
    children-set_attribute, attribute-set_attribute, attribute-new_element, to_int-of_int,
    to_bool-of_bool,
  }

  attribute-database_to_xml :
      (k : String) (db : ParticipantDiscoveryDatabase)
      → attribute k (database_to_xml x g startup show db) ≡ attribute k (database_attributes x g db)
  unfolding database_to_xml
  attribute-database_to_xml k db =
      attribute-insert_each x g k (participant_to_xml x g startup show db.endpoint_guid)
        db.participants _

  children-database_attributes :
      (k : String) (db : ParticipantDiscoveryDatabase)
      → children k (database_attributes x g db) ≡ []
  unfolding database_attributes
  children-database_attributes k db = simp (children-set_attribute, children-new_element)

  name-database_attributes :
      (db : ParticipantDiscoveryDatabase) → name (database_attributes x g db) ≡ s_pt_db
  unfolding database_attributes
  name-database_attributes db = simp (name-set_attribute, name-new_element)

  pub name-database_to_xml :
      (db : ParticipantDiscoveryDatabase) → name (database_to_xml x g startup show db) ≡ s_pt_db
  unfolding database_to_xml
  name-database_to_xml db =
      name-insert_each x g (participant_to_xml x g startup show db.endpoint_guid) db.participants _
      ∙ name-database_attributes db

  participants_of-database_to_xml :
      (db : ParticipantDiscoveryDatabase)
      → children s_pt_di (database_to_xml x g startup show db)
        ≡ map (participant_to_xml x g startup show db.endpoint_guid) db.participants
  unfolding database_to_xml
  participants_of-database_to_xml db =
      children-insert_each x g s_pt_di (participant_to_xml x g startup show db.endpoint_guid)
        db.participants _
        (λ p. rw (name-participant_to_xml x g startup startup' show db.endpoint_guid p) refl)
      ∙ ap (λ es. es ++ map (participant_to_xml x g startup show db.endpoint_guid) db.participants)
          (children-database_attributes s_pt_di db)

  All-participant_trip :
      (owner : Guid) (ps : List ParticipantDiscoveryItem)
      → All HasSortedSets ps
      → All
          (λ p.
            (b : Bool)
            → participant_from_xml x g startup' b (participant_to_xml x g startup show owner p)
              ≡ some (
                reloaded_participant g startup startup' show owner p,
                b || participant_shows g startup startup' show owner p,
              ))
          ps
  All-participant_trip owner [] h = tt
  All-participant_trip owner (p ∷ ps) h = (
    λ b. participant_trip x g startup startup' show owner p b h.0,
    All-participant_trip owner ps h.1,
  )

  participants_read :
      (owner : Guid) (ps : List ParticipantDiscoveryItem) (shown : Bool)
      → IsSorted participant_guid ps
      → All HasSortedSets ps
      → read_each x g participant_guid
          (participant_from_xml x g startup')
          (map (participant_to_xml x g startup show owner) ps)
          []
          shown
        ≡ some (
          map (reloaded_participant g startup startup' show owner) ps,
          shown || any (participant_shows g startup startup' show owner) ps,
        )
  participants_read owner ps shown s h =
      read_each-map x g participant_guid (participant_from_xml x g startup')
        (participant_to_xml x g startup show owner)
        (reloaded_participant g startup startup' show owner)
        (participant_shows g startup startup' show owner) ps [] shown
        (All-participant_trip owner ps h)
        (Above-map participant_guid (reloaded_participant g startup startup' show owner) 0 ps
          (λ p. refl) s)

  pub database_trip :
      (db : ParticipantDiscoveryDatabase) (shown : Bool)
      → IsSorted participant_guid db.participants
      → All HasSortedSets db.participants
      → database_from_xml x g startup' shown (database_to_xml x g startup show db)
        ≡ some (
          reloaded_database g startup startup' show db,
          shown || database_shows g startup startup' show db,
        )
  unfolding database_from_xml database_attributes
  database_trip db shown s h = simp (
    attribute-database_to_xml,
    participants_of-database_to_xml,
    attribute-set_attribute,
    g.read_guid_texts,
    participants_read db.endpoint_guid db.participants shown s h,
  )
