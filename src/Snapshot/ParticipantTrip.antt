-- ===== src/Snapshot/ParticipantTrip.antt =====
-- The XML elements of participants, written and read: src/DiscoveryItem.cpp.
use discovery_server.Prelude.{
  or_false, ◌≡◌, refl, ap, ◌∙◌, Bool, false, ◌||◌, some, List, [], ◌∷◌, ◌++◌, map, String,
  Bool-cases, inl, inr, All,
}
use discovery_server.Item.{
  Guid, TimePoint, DataReaderDiscoveryItem, DataWriterDiscoveryItem, ParticipantDiscoveryItem,
  reader_guid, writer_guid,
}
use discovery_server.Item.EndPoint.{HasSortedSets}
use discovery_server.Xml.{Xml, GuidText}
use discovery_server.Ids.{s_publisher, s_subscriber, s_pt_di}
use discovery_server.Snapshot.Writing.{
  reader_to_xml, writer_to_xml, participant_attributes, participant_to_xml, shows_liveliness,
}
use discovery_server.Snapshot.Reading.{
  reader_from_xml, writer_from_xml, participant_from_xml, read_each,
}
use discovery_server.Snapshot.Reloaded.{
  any, reloaded_reader, reloaded_writer, reloaded_participant, participant_shows, is_shown,
}
use discovery_server.Snapshot.EndpointTrip.{reader_trip, writer_trip}
use discovery_server.Snapshot.LoopTrip.{
  Above-map, attribute-insert_each, name-insert_each, children-insert_each, children-insert_others,
  read_each-map,
}

All-each : {A : Type 0} (P : A → Type 0) → ((a : A) → P a) → (as' : List A) → All P as'
All-each P h [] = tt
All-each P h (a ∷ as') = (h a, All-each P h as')

any-false : {A : Type 0} (as' : List A) → any (λ a. false) as' ≡ false
any-false [] = refl
any-false (a ∷ as') = any-false as'

module _ (x : Xml) (g : GuidText) (startup startup' : TimePoint) (show : Bool) where
  open x use {
    name, attribute, children, name-new_element, name-set_attribute, children-new_element,
    children-set_attribute, attribute-set_attribute, attribute-new_element, to_int-of_int,
    to_bool-of_bool,
  }

  name-reader_to_xml :
      (owner : Guid) (r : DataReaderDiscoveryItem)
      → name (reader_to_xml x g startup show owner r) ≡ s_subscriber
  unfolding reader_to_xml
  name-reader_to_xml owner r = elim (Bool-cases (shows_liveliness x g show owner r)) [
    | inl h ↦ simp (h, name-set_attribute, name-new_element)
    | inr h ↦ simp (h, name-set_attribute, name-new_element)
  ]

  name-writer_to_xml :
      (w : DataWriterDiscoveryItem) → name (writer_to_xml x g startup w) ≡ s_publisher
  unfolding writer_to_xml
  name-writer_to_xml w = simp (name-set_attribute, name-new_element)

  attribute-participant_to_xml :
      (k : String) (owner : Guid) (p : ParticipantDiscoveryItem)
      → attribute k (participant_to_xml x g startup show owner p)
        ≡ attribute k (participant_attributes x g startup p)
  unfolding participant_to_xml
  attribute-participant_to_xml k owner p =
      attribute-insert_each x g k (writer_to_xml x g startup) p.datawriters _
      ∙ attribute-insert_each x g k (reader_to_xml x g startup show owner) p.datareaders _

  children-participant_attributes :
      (k : String) (p : ParticipantDiscoveryItem)
      → children k (participant_attributes x g startup p) ≡ []
  unfolding participant_attributes
  children-participant_attributes k p = simp (children-set_attribute, children-new_element)

  name-participant_attributes :
      (p : ParticipantDiscoveryItem) → name (participant_attributes x g startup p) ≡ s_pt_di
  unfolding participant_attributes
  name-participant_attributes p = simp (name-set_attribute, name-new_element)

  readers_of-participant_to_xml :
      (owner : Guid) (p : ParticipantDiscoveryItem)
      → children s_subscriber (participant_to_xml x g startup show owner p)
        ≡ map (reader_to_xml x g startup show owner) p.datareaders
  unfolding participant_to_xml
  readers_of-participant_to_xml owner p =
      children-insert_others x g s_subscriber (writer_to_xml x g startup) p.datawriters _
        (λ w. rw (name-writer_to_xml w) refl)
      ∙ children-insert_each x g s_subscriber (reader_to_xml x g startup show owner) p.datareaders _
          (λ r. rw (name-reader_to_xml owner r) refl)
      ∙ rw (children-participant_attributes s_subscriber p) refl

  writers_of-participant_to_xml :
      (owner : Guid) (p : ParticipantDiscoveryItem)
      → children s_publisher (participant_to_xml x g startup show owner p)
        ≡ map (writer_to_xml x g startup) p.datawriters
  unfolding participant_to_xml
  writers_of-participant_to_xml owner p =
      children-insert_each x g s_publisher (writer_to_xml x g startup) p.datawriters _
        (λ w. rw (name-writer_to_xml w) refl)
      ∙ ap (λ es. es ++ map (writer_to_xml x g startup) p.datawriters)
          (children-insert_others x g s_publisher (reader_to_xml x g startup show owner)
              p.datareaders _ (λ r. rw (name-reader_to_xml owner r) refl)
            ∙ children-participant_attributes s_publisher p)

  readers_read :
      (owner : Guid) (p : ParticipantDiscoveryItem) (shown : Bool)
      → HasSortedSets p
      → read_each x g reader_guid
          (reader_from_xml x g startup')
          (map (reader_to_xml x g startup show owner) p.datareaders)
          []
          shown
        ≡ some (
          map (reloaded_reader g startup startup' show owner) p.datareaders,
          shown || participant_shows g startup startup' show owner p,
        )
  readers_read owner p shown h =
      read_each-map x g reader_guid (reader_from_xml x g startup')
        (reader_to_xml x g startup show owner) (reloaded_reader g startup startup' show owner)
        (is_shown g startup startup' show owner) p.datareaders [] shown
        (All-each _ (λ r b. reader_trip x g startup startup' show b owner r) p.datareaders)
        (Above-map reader_guid (reloaded_reader g startup startup' show owner) 0 p.datareaders
          (λ r. refl) h.readers_sorted)

  writers_read :
      (p : ParticipantDiscoveryItem) (shown : Bool)
      → HasSortedSets p
      → read_each x g writer_guid
          (writer_from_xml x g startup')
          (map (writer_to_xml x g startup) p.datawriters)
          []
          shown
        ≡ some (map (reloaded_writer g startup startup' show) p.datawriters, shown)
  writers_read p shown h =
      read_each-map x g writer_guid (writer_from_xml x g startup') (writer_to_xml x g startup)
        (reloaded_writer g startup startup' show) (λ w. false) p.datawriters [] shown
        (All-each _ (λ w b. writer_trip x g startup startup' show b w) p.datawriters)
        (Above-map writer_guid (reloaded_writer g startup startup' show) 0 p.datawriters (λ w. refl)
          h.writers_sorted)
      ∙ ap (λ b. some (map (reloaded_writer g startup startup' show) p.datawriters, b))
          (ap (λ b. shown || b) (any-false p.datawriters) ∙ or_false shown)

  pub participant_trip :
      (owner : Guid) (p : ParticipantDiscoveryItem) (shown : Bool)
      → HasSortedSets p
      → participant_from_xml x g startup' shown (participant_to_xml x g startup show owner p)
        ≡ some (
          reloaded_participant g startup startup' show owner p,
          shown || participant_shows g startup startup' show owner p,
        )
  unfolding participant_from_xml participant_attributes
  participant_trip owner p shown h = simp (
    attribute-participant_to_xml,
    readers_of-participant_to_xml,
    writers_of-participant_to_xml,
    attribute-set_attribute,
    to_int-of_int,
    to_bool-of_bool,
    g.read_guid_texts,
    readers_read owner p shown h,
    writers_read p (shown || participant_shows g startup startup' show owner p) h,
  )

  pub name-participant_to_xml :
      (owner : Guid) (p : ParticipantDiscoveryItem)
      → name (participant_to_xml x g startup show owner p) ≡ s_pt_di
  unfolding participant_to_xml
  name-participant_to_xml owner p =
      name-insert_each x g (writer_to_xml x g startup) p.datawriters _
      ∙ name-insert_each x g (reader_to_xml x g startup show owner) p.datareaders _
      ∙ name-participant_attributes p
