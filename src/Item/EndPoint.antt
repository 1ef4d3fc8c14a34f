-- ===== src/Item/EndPoint.antt =====
-- The template parameter `T` of DiscoveryItemDatabase::AddEndPoint and RemoveEndPoint with the
-- member pointer `m`: the set of endpoints of one kind that a participant item holds.
use discovery_server.Prelude.{◌≡◌, refl, List, ◌+◌, ℕ, String, length, arith}
use discovery_server.Prelude.Int.{pos}
use discovery_server.OrderedSet.Order.{IsSorted}
use discovery_server.Item.{
  Guid, TimePoint, DataWriterDiscoveryItem, DataReaderDiscoveryItem, ParticipantDiscoveryItem,
  writer_guid, reader_guid, count_endpoints,
}

pub record HasSortedSets (p : ParticipantDiscoveryItem) : Type 0 where
  pub writers_sorted : IsSorted writer_guid p.datawriters
  pub readers_sorted : IsSorted reader_guid p.datareaders

pub record EndPoint (E : Type 0) : Type 0 where
  pub guid : E → Guid
  pub type_name : E → String
  pub topic_name : E → String
  -- The constructor that emplace_hint calls.
  pub new : Guid → String → String → TimePoint → E
  -- The set behind getDataWriters or getDataReaders, and a write to it.
  pub members : ParticipantDiscoveryItem → List E
  pub set_members : List E → ParticipantDiscoveryItem → ParticipantDiscoveryItem
  -- The size of the set of the other kind.
  pub others : ParticipantDiscoveryItem → ℕ
  pub guid-new : (id : Guid) (type topic : String) (t : TimePoint) → guid (new id type topic t) ≡ id
  pub members-set_members :
      (es : List E) (p : ParticipantDiscoveryItem) → members (set_members es p) ≡ es
  pub set_members_guid :
      (es : List E) (p : ParticipantDiscoveryItem)
      → (set_members es p).endpoint_guid ≡ p.endpoint_guid
  pub set_members_is_alive :
      (es : List E) (p : ParticipantDiscoveryItem) → (set_members es p).is_alive ≡ p.is_alive
  pub others-set_members :
      (es : List E) (p : ParticipantDiscoveryItem) → others (set_members es p) ≡ others p
  pub set_members_twice :
      (es fs : List E) (p : ParticipantDiscoveryItem)
      → set_members es (set_members fs p) ≡ set_members es p
  pub set_members_self : (p : ParticipantDiscoveryItem) → set_members (members p) p ≡ p
  pub members-IsSorted :
      (p : ParticipantDiscoveryItem) → HasSortedSets p → IsSorted guid (members p)
  pub set_members-HasSortedSets :
      (es : List E) (p : ParticipantDiscoveryItem)
      → IsSorted guid es
      → HasSortedSets p
      → HasSortedSets (set_members es p)
  pub count_endpoints-parts :
      (p : ParticipantDiscoveryItem) → count_endpoints p ≡ length (members p) + others p

unfoldable pub new_writer : Guid → String → String → TimePoint → DataWriterDiscoveryItem
new_writer id type topic t = record {
  endpoint_guid = id;
  type_name = type;
  topic_name = topic;
  discovered_timestamp = t;
}

unfoldable pub new_reader : Guid → String → String → TimePoint → DataReaderDiscoveryItem
new_reader id type topic t = record {
  endpoint_guid = id;
  type_name = type;
  topic_name = topic;
  discovered_timestamp = t;
  alive_count = pos 0;
  not_alive_count = pos 0;
}

pub guid-new_writer :
    (id : Guid) (type topic : String) (t : TimePoint)
    → (new_writer id type topic t).endpoint_guid ≡ id
unfolding new_writer
guid-new_writer id type topic t = refl

pub guid-new_reader :
    (id : Guid) (type topic : String) (t : TimePoint)
    → (new_reader id type topic t).endpoint_guid ≡ id
unfolding new_reader
guid-new_reader id type topic t = refl

pub writers_first :
    (p : ParticipantDiscoveryItem) → count_endpoints p ≡ length p.datawriters + length p.datareaders
unfolding count_endpoints
writers_first p = refl

pub readers_first :
    (p : ParticipantDiscoveryItem) → count_endpoints p ≡ length p.datareaders + length p.datawriters
unfolding count_endpoints
readers_first p = omega arith

unfoldable pub writers : EndPoint DataWriterDiscoveryItem
writers = record {
  guid = writer_guid;
  type_name = λ w. w.type_name;
  topic_name = λ w. w.topic_name;
  new = new_writer;
  members = λ p. p.datawriters;
  set_members = λ es p. record p { datawriters = es };
  others = λ p. length p.datareaders;
  guid-new = guid-new_writer;
  members-set_members = λ es p. refl;
  set_members_guid = λ es p. refl;
  set_members_is_alive = λ es p. refl;
  others-set_members = λ es p. refl;
  set_members_twice = λ es fs p. refl;
  set_members_self = λ p. refl;
  members-IsSorted = λ p h. h.writers_sorted;
  set_members-HasSortedSets =
      λ es p s h. record { writers_sorted = s; readers_sorted = h.readers_sorted };
  count_endpoints-parts = writers_first;
}

unfoldable pub readers : EndPoint DataReaderDiscoveryItem
readers = record {
  guid = reader_guid;
  type_name = λ r. r.type_name;
  topic_name = λ r. r.topic_name;
  new = new_reader;
  members = λ p. p.datareaders;
  set_members = λ es p. record p { datareaders = es };
  others = λ p. length p.datawriters;
  guid-new = guid-new_reader;
  members-set_members = λ es p. refl;
  set_members_guid = λ es p. refl;
  set_members_is_alive = λ es p. refl;
  others-set_members = λ es p. refl;
  set_members_twice = λ es fs p. refl;
  set_members_self = λ p. refl;
  members-IsSorted = λ p h. h.readers_sorted;
  set_members-HasSortedSets =
      λ es p s h. record { writers_sorted = h.writers_sorted; readers_sorted = s };
  count_endpoints-parts = readers_first;
}
