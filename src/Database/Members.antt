-- ===== src/Database/Members.antt =====
-- The public members of DiscoveryItemDatabase that go through its templates, and those that read
-- the image or change one field of it. Sums of set sizes stay far below the bound of size_t.
use discovery_server.Prelude.{ℕ, Bool, none, some, List, [], ◌∷◌, String, length, total}
use discovery_server.Prelude.Int.{ℤ}
use discovery_server.OrderedSet.{seek, find, modify}
use discovery_server.Outcome.{Outcome}
use discovery_server.Item.{
  Guid, TimePoint, DataReaderDiscoveryItem, ParticipantDiscoveryItem, participant_guid, reader_guid,
  count_data_readers, count_data_writers,
}
use discovery_server.Item.EndPoint.{readers, writers}
use discovery_server.Snapshot.{
  ParticipantDiscoveryDatabase, Snapshot, database_guid, subscript, subscript_const,
  write_participants,
}
use discovery_server.Database.{Participants, add_end_point, remove_end_point}

module _ (ndebug : Bool) (spokesman : Guid) (src_name : String) (ptid id : Guid) where
  unfoldable pub add_data_reader :
      String → String → TimePoint → TimePoint → Snapshot → Outcome (Bool × Snapshot)
  add_data_reader type_name topic_name discovered_timestamp now image =
      add_end_point readers ndebug spokesman src_name ptid id type_name topic_name
        discovered_timestamp now image

  unfoldable pub add_data_writer :
      String → String → TimePoint → TimePoint → Snapshot → Outcome (Bool × Snapshot)
  add_data_writer type_name topic_name discovered_timestamp now image =
      add_end_point writers ndebug spokesman src_name ptid id type_name topic_name
        discovered_timestamp now image

unfoldable pub remove_data_reader : Guid → Guid → Guid → Snapshot → Bool × Snapshot
remove_data_reader spokesman ptid sid image = remove_end_point readers spokesman ptid sid image

unfoldable pub remove_data_writer : Guid → Guid → Guid → Snapshot → Bool × Snapshot
remove_data_writer spokesman ptid pid image = remove_end_point writers spokesman ptid pid image

unfoldable pub set_liveliness : ℤ → ℤ → DataReaderDiscoveryItem → DataReaderDiscoveryItem
set_liveliness alive_count not_alive_count r = record r {
  alive_count = alive_count;
  not_alive_count = not_alive_count;
}

unfoldable pub set_reader_liveliness :
    Guid → ℤ → ℤ → ParticipantDiscoveryItem → ParticipantDiscoveryItem
unfolding set_liveliness
set_reader_liveliness subs alive_count not_alive_count p = record p {
  datareaders = modify reader_guid subs (set_liveliness alive_count not_alive_count) p.datareaders;
}

-- The participant and then its reader are looked up; a report about neither is dropped.
unfoldable pub liveliness_reported : Guid → Guid → ℤ → ℤ → Participants → Participants
unfolding set_reader_liveliness
liveliness_reported pguid subs alive_count not_alive_count ps =
    elim (seek participant_guid pguid ps) [
      | none ↦ ps
      | some p ↦ elim (seek reader_guid subs p.datareaders) [
        | none ↦ ps
        | some r ↦
            modify participant_guid pguid (set_reader_liveliness subs alive_count not_alive_count)
              ps
      ]
    ]

-- UpdateSubLiveliness. `owner_of` gives a GUID the entity id of a participant.
unfoldable pub update_sub_liveliness : (Guid → Guid) → Guid → ℤ → ℤ → Snapshot → Snapshot
unfolding liveliness_reported
update_sub_liveliness owner_of subs alive_count not_alive_count image =
    let pguid = owner_of subs in
    elim (find database_guid pguid image.databases) [
      | none ↦ image
      | some db ↦
          write_participants pguid (liveliness_reported pguid subs alive_count not_alive_count)
            (subscript pguid image)
    ]

found_in : Guid → List ParticipantDiscoveryDatabase → List ParticipantDiscoveryItem
found_in ptid [] = []
found_in ptid (db ∷ dbs) = elim (seek participant_guid ptid db.participants) [
  | none ↦ found_in ptid dbs
  | some p ↦ p ∷ found_in ptid dbs
]

-- FindParticipant: what each spokesman knows of the participant, in the order of the spokesmen.
unfoldable pub find_participant : Guid → Snapshot → List ParticipantDiscoveryItem
unfolding found_in
find_participant ptid image = found_in ptid image.databases

unfoldable pub count_participants : Guid → Snapshot → ℕ
count_participants spokesman image = elim (subscript_const spokesman image) [
  | none ↦ 0
  | some db ↦ length db.participants
]

unfoldable pub count_readers_of : Guid → Snapshot → ℕ
count_readers_of spokesman image = elim (subscript_const spokesman image) [
  | none ↦ 0
  | some db ↦ total count_data_readers db.participants
]

unfoldable pub count_writers_of : Guid → Snapshot → ℕ
count_writers_of spokesman image = elim (subscript_const spokesman image) [
  | none ↦ 0
  | some db ↦ total count_data_writers db.participants
]

-- The versions that ask for one participant of the database.
unfoldable pub count_readers_at : Guid → Guid → Snapshot → ℕ
count_readers_at spokesman ptid image = elim (subscript_const spokesman image) [
  | none ↦ 0
  | some db ↦ elim (seek participant_guid ptid db.participants) [
    | none ↦ 0
    | some p ↦ count_data_readers p
  ]
]

unfoldable pub count_writers_at : Guid → Guid → Snapshot → ℕ
count_writers_at spokesman ptid image = elim (subscript_const spokesman image) [
  | none ↦ 0
  | some db ↦ elim (seek participant_guid ptid db.participants) [
    | none ↦ 0
    | some p ↦ count_data_writers p
  ]
]
