-- ===== src/Database/Counts.antt =====
-- The counters of DiscoveryItemDatabase against its additions.
use discovery_server.Prelude.{
  suc, ◌+◌, ◌≡◌, ◌≢◌, refl, sym, ap, ◌∙◌, Bool, some, String, arith, length, total, is_none,
  if◌then◌else◌, ◌==◌, ◌&&◌, Option-cases, inl, inr,
}
use discovery_server.OrderedSet.{find, seek, emplace, modify}
use discovery_server.OrderedSet.Order.{IsSorted}
use discovery_server.OrderedSet.Lookup.{
  seek-find, length-emplace, length-modify, total-modify, find-key, lower_bound-find, All-find,
}
use discovery_server.Outcome.{done}
use discovery_server.Item.{
  Guid, TimePoint, ParticipantDiscoveryItem, participant_guid, reader_guid, new_participant,
  new_participant_guid, count_data_readers, count_data_writers,
}
use discovery_server.Item.EndPoint.{EndPoint, readers}
use discovery_server.Snapshot.{Snapshot, participants_of}
use discovery_server.Snapshot.Lookup.{
  participant_at, participants_of-update, participant_at-participants_of,
  subscript_const-database_at,
}
use discovery_server.Database.{
  Participants, register, add_participant, enter_endpoint, add_to_participants,
}
use discovery_server.Database.Members.{
  add_data_reader, count_participants, count_readers_of, count_writers_of,
}
use discovery_server.Database.Image.{add_participant_done, add_end_point_done}
use discovery_server.Database.Cases.{add_behind}
use discovery_server.Database.Invariant.{IsValidItem}
use discovery_server.Database.WellFormed.{IsWellFormed}
use discovery_server.Database.Participants.{participants_of-AreValid}
use discovery_server.Database.Endpoints.{endpoint_at}

count_participants-length :
    (k : Guid) (s : Snapshot) → count_participants k s ≡ length (participants_of k s)
unfolding count_participants participants_of
count_participants-length k s = ground (arith, subscript_const-database_at k s)

count_readers_of-total :
    (k : Guid) (s : Snapshot)
    → count_readers_of k s ≡ total count_data_readers (participants_of k s)
unfolding count_readers_of participants_of
count_readers_of-total k s = ground (arith, subscript_const-database_at k s)

count_writers_of-total :
    (k : Guid) (s : Snapshot)
    → count_writers_of k s ≡ total count_data_writers (participants_of k s)
unfolding count_writers_of participants_of
count_writers_of-total k s = ground (arith, subscript_const-database_at k s)

length-register :
    (ptid : Guid) (name : String) (server : Bool) (now t : TimePoint) (ps : Participants)
    → IsSorted participant_guid ps
    → length (register ptid name server now t ps)
      ≡ (if is_none (find participant_guid ptid ps) then suc (length ps) else length ps)
unfolding register
length-register ptid name server now t ps h = elim (Option-cases (find participant_guid ptid ps)) [
  | inl e ↦
      rw (seek-find participant_guid ptid ps, e)
        (length-modify participant_guid ptid _ (emplace participant_guid fresh ps)
          ∙ ground (
            arith,
            new_participant_guid ptid name server now,
            length-emplace participant_guid 0 fresh ps h,
          ))
  | inr (q, e) ↦
      rw (seek-find participant_guid ptid ps, e) (length-modify participant_guid ptid _ ps)
]
  where
    fresh : ParticipantDiscoveryItem
    fresh = new_participant ptid name server now

-- On a well-formed image, where its assertion does not fail, AddParticipant raises the spokesman's count by one exactly if the participant was unknown, and
-- no other spokesman's count.
pub count_participants-add_participant :
    (ndebug : Bool) (spokesman : Guid) (src : String) (ptid : Guid) (name : String) (t : TimePoint)
    (server : Bool) (now : TimePoint) (s : Snapshot) {r : Bool} {s' : Snapshot} (k : Guid)
    → IsWellFormed s
    → add_participant ndebug spokesman src ptid name t server now s ≡ done (r, s')
    → count_participants k s'
      ≡ count_participants k s
        + (if spokesman == k && is_none (participant_at spokesman ptid s) then 1 else 0)
count_participants-add_participant ndebug spokesman src ptid name t server now s {s'} k w e =
    ground (
      arith,
      add_participant_done ndebug spokesman src ptid name t server now s e,
      count_participants-length k s,
      count_participants-length k s',
      participants_of-update k spokesman src (register ptid name server now t) s w.ordered,
      length-register ptid name server now t (participants_of spokesman s)
          (participants_of-AreValid spokesman s w).0,
      participant_at-participants_of spokesman ptid s,
    )

members_count-enter :
    {T : Type 0} (m : EndPoint T) (id : Guid) (type topic : String) (t : TimePoint)
    (q : ParticipantDiscoveryItem)
    → IsSorted m.guid (m.members q)
    → length (m.members (enter_endpoint m id type topic t q))
      ≡ length (m.members q) + (if is_none (endpoint_at m id q) then 1 else 0)
unfolding enter_endpoint
members_count-enter m id type topic t q h = ground (
  arith,
  m.guid-new id type topic t,
  m.members-set_members
      (if is_none (seek m.guid id (m.members q))
        then emplace m.guid (m.new id type topic t) (m.members q)
        else m.members q)
      q,
  seek-find m.guid id (m.members q),
  length-emplace m.guid 0 (m.new id type topic t) (m.members q) h,
)

reader_count-enter :
    (id : Guid) (type topic : String) (t : TimePoint) (q : ParticipantDiscoveryItem)
    → IsSorted reader_guid q.datareaders
    → count_data_readers (enter_endpoint readers id type topic t q)
      ≡ count_data_readers q + (if is_none (endpoint_at readers id q) then 1 else 0)
unfolding count_data_readers readers
reader_count-enter id type topic t q h = members_count-enter readers id type topic t q h

writer_count-enter :
    (id : Guid) (type topic : String) (t : TimePoint) (q : ParticipantDiscoveryItem)
    → count_data_writers (enter_endpoint readers id type topic t q) ≡ count_data_writers q
unfolding count_data_writers enter_endpoint readers
writer_count-enter id type topic t q = refl

-- AddDataReader on a well-formed image, where no assertion fails, for a known participant other
-- than the spokesman: the spokesman's count of readers rises by one exactly if
-- the participant had no reader of that GUID, its counts of participants and writers stay.
pub count_readers_of-add_data_reader :
    (ndebug : Bool) (spokesman : Guid) (src : String) (ptid id : Guid) (type topic : String)
    (t now : TimePoint) (s : Snapshot) {r : Bool} {s' : Snapshot} {q : ParticipantDiscoveryItem}
    → IsWellFormed s
    → ptid ≢ spokesman
    → participant_at spokesman ptid s ≡ some q
    → add_data_reader ndebug spokesman src ptid id type topic t now s ≡ done (r, s')
    → (count_readers_of spokesman s'
        ≡ count_readers_of spokesman s + (if is_none (endpoint_at readers id q) then 1 else 0))
      × (count_writers_of spokesman s' ≡ count_writers_of spokesman s)
      × (count_participants spokesman s' ≡ count_participants spokesman s)
unfolding add_data_reader
count_readers_of-add_data_reader ndebug spokesman src ptid id type topic t now s {s'} {q} w other
      known e =
    (
      omega (
        arith,
        count_readers_of-total spokesman s,
        count_readers_of-total spokesman s',
        ap (total count_data_readers) now_there,
        total-modify participant_guid count_data_readers 0 ptid enter ps sorted there,
        reader_count-enter id type topic t q valid.sets.readers_sorted,
      ),
      omega (
        arith,
        count_writers_of-total spokesman s,
        count_writers_of-total spokesman s',
        ap (total count_data_writers) now_there,
        total-modify participant_guid count_data_writers 0 ptid enter ps sorted there,
        writer_count-enter id type topic t q,
      ),
      omega (
        arith,
        count_participants-length spokesman s,
        count_participants-length spokesman s',
        ap length now_there,
        length-modify participant_guid ptid enter ps,
      ),
    )
  where
    ps : Participants
    ps = participants_of spokesman s

    enter : ParticipantDiscoveryItem → ParticipantDiscoveryItem
    enter = enter_endpoint readers id type topic t

    sorted : IsSorted participant_guid ps
    sorted = (participants_of-AreValid spokesman s w).0

    there : find participant_guid ptid ps ≡ some q
    there = sym (participant_at-participants_of spokesman ptid s) ∙ known

    valid : IsValidItem q
    valid =
        All-find participant_guid IsValidItem ptid ps there
          (participants_of-AreValid spokesman s w).1

    now_there : participants_of spokesman s' ≡ modify participant_guid ptid enter ps
    now_there = ground (
      arith,
      add_end_point_done readers ndebug spokesman src ptid id type topic t now s e,
      participants_of-update spokesman spokesman src
          (add_to_participants readers spokesman ptid id type topic t now) s w.ordered,
      find-key participant_guid ptid ps there,
      add_behind readers spokesman ptid id type topic t now ps q other
          (lower_bound-find participant_guid ptid ps there),
    )
