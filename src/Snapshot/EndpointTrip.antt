-- ===== src/Snapshot/EndpointTrip.antt =====
-- The XML elements of endpoints, written and read: src/DiscoveryItem.cpp.
use discovery_server.Prelude.{
  or_false, ◌≡◌, refl, sym, ap, ◌∙◌, Bool, true, false, ◌||◌, Option, none, some, String,
  Bool-cases, inl, inr,
}
use discovery_server.Prelude.Int.{ℤ}
use discovery_server.Item.{Guid, TimePoint, DataReaderDiscoveryItem, DataWriterDiscoveryItem}
use discovery_server.Xml.{Xml, GuidText}
use discovery_server.Ids.{s_alive_count, s_not_alive_count}
use discovery_server.Snapshot.Writing.{reader_to_xml, writer_to_xml}
use discovery_server.Snapshot.Reading.{
  get_liveliness, query_count, reader_from_xml, writer_from_xml,
}
use discovery_server.Snapshot.Reloaded.{is_shown, reloaded_reader, reloaded_writer}

module _ (x : Xml) (g : GuidText) where
  open x use {attribute-set_attribute, attribute-new_element, to_int-of_int}

  pub writer_trip :
      (startup startup' : TimePoint) (show shown : Bool) (w : DataWriterDiscoveryItem)
      → writer_from_xml x g startup' shown (writer_to_xml x g startup w)
        ≡ some (reloaded_writer g startup startup' show w, shown || false)
  unfolding writer_from_xml writer_to_xml
  writer_trip startup startup' show shown w =
      simp (attribute-set_attribute, to_int-of_int, g.read_guid_texts, or_false)

  query_count_read :
      (k : String) (e : x.Element) (n old : ℤ)
      → x.attribute k e ≡ some (x.of_int n)
      → query_count x g k e old ≡ n
  unfolding query_count
  query_count_read k e n old h = rw h (rw (to_int-of_int n))

  get_liveliness_shown :
      (e : x.Element) (r : DataReaderDiscoveryItem) (n : ℤ)
      → x.attribute s_alive_count e ≡ some (x.of_int n)
      → get_liveliness x g e r ≡ (record r { alive_count = n }, true)
  unfolding get_liveliness
  get_liveliness_shown e r n h =
      rw (h, get_liveliness)
        (ap (λ k. (record r { alive_count = k }, true))
          (query_count_read s_alive_count e n r.alive_count h))

  get_liveliness_hidden :
      (e : x.Element) (r : DataReaderDiscoveryItem)
      → x.attribute s_alive_count e ≡ none
      → x.attribute s_not_alive_count e ≡ none
      → get_liveliness x g e r ≡ (r, false)
  unfolding get_liveliness
  get_liveliness_hidden e r h h' = rw (h, h', get_liveliness) refl

  shown_trip :
      (startup startup' : TimePoint) (show shown : Bool) (owner : Guid)
      (r : DataReaderDiscoveryItem)
      → is_shown g startup startup' show owner r ≡ true
      → reader_from_xml x g startup' shown (reader_to_xml x g startup show owner r)
        ≡ some (reloaded_reader g startup startup' show owner r, shown || true)
  unfolding reader_from_xml reader_to_xml
  shown_trip startup startup' show shown owner r h =
      simp (h, attribute-set_attribute, to_int-of_int, g.read_guid_texts)
        (ap (λ (q : DataReaderDiscoveryItem × Bool). some (q.0, shown || q.1))
          (get_liveliness_shown _ _ r.alive_count (simp attribute-set_attribute)))

  hidden_trip :
      (startup startup' : TimePoint) (show shown : Bool) (owner : Guid)
      (r : DataReaderDiscoveryItem)
      → is_shown g startup startup' show owner r ≡ false
      → reader_from_xml x g startup' shown (reader_to_xml x g startup show owner r)
        ≡ some (reloaded_reader g startup startup' show owner r, shown || false)
  unfolding reader_from_xml reader_to_xml
  hidden_trip startup startup' show shown owner r h =
      simp (h, attribute-set_attribute, to_int-of_int, g.read_guid_texts)
        (ap (λ (q : DataReaderDiscoveryItem × Bool). some (q.0, shown || q.1))
          (get_liveliness_hidden _ _ (simp (attribute-set_attribute, attribute-new_element))
            (simp (attribute-set_attribute, attribute-new_element))))

  -- The lost number of writers that are not alive aside, a reader comes back, with its liveliness
  -- where it is shown.
  pub reader_trip :
      (startup startup' : TimePoint) (show shown : Bool) (owner : Guid)
      (r : DataReaderDiscoveryItem)
      → reader_from_xml x g startup' shown (reader_to_xml x g startup show owner r)
        ≡ some (
          reloaded_reader g startup startup' show owner r,
          shown || is_shown g startup startup' show owner r,
        )
  reader_trip startup startup' show shown owner r =
      elim (Bool-cases (is_shown g startup startup' show owner r)) [
        | inl h ↦ shown_trip startup startup' show shown owner r h ∙ ap as_flag (sym h)
        | inr h ↦ hidden_trip startup startup' show shown owner r h ∙ ap as_flag (sym h)
      ]
    where
      as_flag : Bool → Option (DataReaderDiscoveryItem × Bool)
      as_flag b = some (reloaded_reader g startup startup' show owner r, shown || b)
