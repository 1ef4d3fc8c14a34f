-- ===== src/Database.antt =====
-- DiscoveryItemDatabase of src/DiscoveryItem.cpp over its only state, the snapshot `image`. Each
-- operation holds `database_mutex` throughout, so it is one step. `ndebug` tells whether the
-- build leaves assertions out; `now` is steady_clock::now() where the code reads it.
pub mod Members
pub mod Image
pub mod Cases
pub mod Invariant
pub mod Participants
pub mod Assertions
pub mod Endpoints
pub mod Entering
pub mod EndpointRemoval
pub mod Removal
pub mod Counts
pub mod WellFormed
pub mod Steps
use discovery_server.Prelude.{
  ℕ, ◌+◌, Bool, true, false, not, ◌&&◌, ◌||◌, Option, none, some, List, [], ◌∷◌, ◌++◌, String, ◌==◌,
  str_eq, if◌then◌else◌, is_none, length, total,
}
use discovery_server.Prelude.Int.{ℤ}
use discovery_server.OrderedSet.{lower_bound, seek, find, emplace, erase, modify}
use discovery_server.Outcome.{Outcome, assert_then}
use discovery_server.Item.{
  Guid, TimePoint, DataReaderDiscoveryItem, ParticipantDiscoveryItem, participant_guid, reader_guid,
  new_participant, acknowledge, set_name, set_server, set_discovered_timestamp, count_endpoints,
  count_data_readers, count_data_writers,
}
use discovery_server.Item.EndPoint.{EndPoint}
use discovery_server.Snapshot.{
  ParticipantDiscoveryDatabase, Snapshot, database_guid, access_snapshot, subscript,
  subscript_const, write_participants, participants_of,
}

abbrev Participants : Type 0
Participants = List ParticipantDiscoveryItem

-- The participant that the iterator of AddParticipant points at, where it is a zombie.
unfoldable pub revive :
    String → Bool → TimePoint → ParticipantDiscoveryItem → ParticipantDiscoveryItem
unfolding set_name acknowledge set_server set_discovered_timestamp
revive name server discovered_timestamp p =
    if not p.is_alive
    then set_discovered_timestamp discovered_timestamp
        (set_server server (acknowledge true (set_name name p)))
    else p

-- The body of AddParticipant on the participants of the spokesman's database.
unfoldable pub register : Guid → String → Bool → TimePoint → TimePoint → Participants → Participants
unfolding revive new_participant
register ptid name server now discovered_timestamp ps =
    modify participant_guid ptid (revive name server discovered_timestamp) (
      if is_none (seek participant_guid ptid ps)
      then emplace participant_guid (new_participant ptid name server now) ps
      else ps)

abbrev same_flag : Bool → Bool → Bool
same_flag true b = b
same_flag false b = not b

abbrev pub is_server_of : Bool → Option ParticipantDiscoveryItem → Bool
is_server_of server none = true
is_server_of server (some p) = same_flag p.is_server server

unfoldable pub add_participant :
    Bool
    → Guid
    → String
    → Guid
    → String
    → TimePoint
    → Bool
    → TimePoint
    → Snapshot
    → Outcome (Bool × Snapshot)
unfolding register
add_participant ndebug spokesman src_name ptid name discovered_timestamp server now image =
    let image' =
      write_participants spokesman (register ptid name server now discovered_timestamp)
        (access_snapshot spokesman src_name image) in
    assert_then ndebug
      (is_server_of server (find participant_guid ptid (participants_of spokesman image')))
      (true, image')

-- RemoveParticipant(deceased): the whole database of a participant goes.
unfoldable pub remove_database : Guid → Snapshot → Bool × Snapshot
remove_database deceased image = (
  not (is_none (find database_guid deceased image.databases)),
  record image { databases = erase database_guid deceased image.databases },
)

-- RemoveParticipant(spokesman, ptid) on the participants of the spokesman's database.
unfoldable pub unregister : Guid → Participants → Bool × Participants
unfolding acknowledge
unregister ptid ps = elim (seek participant_guid ptid ps) [
  | none ↦ (false, ps)
  | some p ↦ (
    true,
    (if 0 == count_endpoints p
        then erase participant_guid ptid ps
        else modify participant_guid ptid (acknowledge false) ps),
  )
]

unfoldable pub remove_participant : Guid → Guid → Snapshot → Bool × Snapshot
unfolding unregister
remove_participant spokesman ptid image =
    let image' = subscript spokesman image in
    (
      (unregister ptid (participants_of spokesman image')).0,
      write_participants spokesman (λ ps. (unregister ptid ps).1) image',
    )

module _ {T : Type 0} (m : EndPoint T) where
  -- The participant that the iterator of AddEndPoint points at after its first test: lower_bound
  -- finds `ptid` or the next participant behind it, and that one is not compared with `ptid`.
  unfoldable pub holder : Guid → Guid → Participants → Guid
  holder spokesman ptid ps = elim (lower_bound participant_guid ptid ps) [
    | none ↦ ptid
    | some p ↦ (if ptid == spokesman then ptid else p.endpoint_guid)
  ]

  -- The first test of AddEndPoint: the participant is entered, as a zombie unless it speaks of
  -- itself.
  unfoldable pub enter_holder : Guid → Guid → TimePoint → Participants → Participants
  unfolding new_participant acknowledge
  enter_holder spokesman ptid now ps =
      if is_none (lower_bound participant_guid ptid ps) || ptid == spokesman
      then modify participant_guid ptid (acknowledge (ptid == spokesman))
          (emplace participant_guid (new_participant ptid "" false now) ps)
      else ps

  -- The second part: the endpoint is entered in the container of its kind.
  unfoldable pub enter_endpoint :
      Guid → String → String → TimePoint → ParticipantDiscoveryItem → ParticipantDiscoveryItem
  enter_endpoint id type_name topic_name discovered_timestamp p =
      let cont = m.members p in
      m.set_members
        (if is_none (seek m.guid id cont)
          then emplace m.guid (m.new id type_name topic_name discovered_timestamp) cont
          else cont)
        p

  unfoldable pub add_to_participants :
      Guid → Guid → Guid → String → String → TimePoint → TimePoint → Participants → Participants
  unfolding holder enter_holder enter_endpoint
  add_to_participants spokesman ptid id type_name topic_name discovered_timestamp now ps =
      modify participant_guid (holder spokesman ptid ps)
        (enter_endpoint id type_name topic_name discovered_timestamp)
        (enter_holder spokesman ptid now ps)

  -- The assertions on the endpoint `id` of the participant.
  unfoldable pub described_as : Guid → String → String → Option ParticipantDiscoveryItem → Bool
  described_as id type_name topic_name none = true
  described_as id type_name topic_name (some p) = elim (find m.guid id (m.members p)) [
    | none ↦ true
    | some e ↦ str_eq type_name (m.type_name e) && str_eq topic_name (m.topic_name e)
  ]

  unfoldable pub add_end_point :
      Bool
      → Guid
      → String
      → Guid
      → Guid
      → String
      → String
      → TimePoint
      → TimePoint
      → Snapshot
      → Outcome (Bool × Snapshot)
  unfolding add_to_participants described_as
  add_end_point ndebug spokesman src_name ptid id type_name topic_name discovered_timestamp now
        image =
      let image0 = access_snapshot spokesman src_name image in
      let target = holder spokesman ptid (participants_of spokesman image0) in
      let image' =
        write_participants spokesman
          (add_to_participants spokesman ptid id type_name topic_name discovered_timestamp now)
          image0 in
      assert_then ndebug
        (described_as id type_name topic_name
          (find participant_guid target (participants_of spokesman image')))
        (true, image')

  -- `cont.erase(sit)` on a participant.
  unfoldable pub without_endpoint : Guid → ParticipantDiscoveryItem → ParticipantDiscoveryItem
  without_endpoint id p = m.set_members (erase m.guid id (m.members p)) p

  -- The endpoint of `p` goes, and with the last endpoint of a zombie the zombie.
  unfoldable pub erase_endpoint :
      Guid → Guid → ParticipantDiscoveryItem → Participants → Participants
  unfolding without_endpoint
  erase_endpoint ptid id p ps =
      let ps' = modify participant_guid ptid (without_endpoint id) ps in
      if count_endpoints (without_endpoint id p) == 0 && not (without_endpoint id p).is_alive
      then erase participant_guid ptid ps'
      else ps'

  unfoldable pub remove_from_participants : Guid → Guid → Participants → Bool × Participants
  unfolding erase_endpoint
  remove_from_participants ptid id ps = elim (seek participant_guid ptid ps) [
    | none ↦ (false, ps)
    | some p ↦ elim (seek m.guid id (m.members p)) [
      | none ↦ (false, ps)
      | some e ↦ (true, erase_endpoint ptid id p ps)
    ]
  ]

  unfoldable pub remove_end_point : Guid → Guid → Guid → Snapshot → Bool × Snapshot
  unfolding remove_from_participants
  remove_end_point spokesman ptid id image = elim (find database_guid spokesman image.databases) [
    | none ↦ (false, image)
    | some db ↦
        let image' = subscript spokesman image in
        (
          (remove_from_participants ptid id (participants_of spokesman image')).0,
          write_participants spokesman (λ ps. (remove_from_participants ptid id ps).1) image',
        )
  ]
