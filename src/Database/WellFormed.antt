-- ===== src/Database/WellFormed.antt =====
-- The invariant of the whole image, kept by each operation of DiscoveryItemDatabase.
use discovery_server.Prelude.{
  ◌≡◌, refl, Bool, true, false, String, arith, if◌then◌else◌, Option-cases, inl, inr,
}
use discovery_server.Prelude.Int.{ℤ}
use discovery_server.OrderedSet.{seek, find}
use discovery_server.OrderedSet.Order.{IsSorted, erase-Above, modify-Above}
use discovery_server.OrderedSet.Lookup.{All-erase, All-modify, length-modify}
use discovery_server.Outcome.{Outcome, done, aborted}
use discovery_server.Item.{
  Guid, TimePoint, ParticipantDiscoveryItem, participant_guid, reader_guid, count_endpoints,
}
use discovery_server.Item.EndPoint.{EndPoint}
use discovery_server.Snapshot.{
  Snapshot, database_guid, new_database, access_snapshot, write_participants,
}
use discovery_server.Snapshot.Lookup.{
  AllParticipants, AllParticipants-access_snapshot, AllParticipants-write_participants,
  access_snapshot-IsSorted, write_participants-IsSorted, subscript-access_snapshot, update,
}
use discovery_server.Database.{
  Participants, register, add_participant, remove_database, unregister, remove_participant,
  add_to_participants, add_end_point, remove_from_participants, remove_end_point,
}
use discovery_server.Database.Members.{
  set_liveliness, set_reader_liveliness, liveliness_reported, update_sub_liveliness,
}
use discovery_server.Database.Image.{
  remove_participant-update, remove_end_point_absent, remove_end_point-update,
}
use discovery_server.Database.Invariant.{
  IsValidItem, AreValid, register-AreValid, unregister-AreValid, add_to_participants-AreValid,
  remove_from_participants-AreValid,
}

pub record IsWellFormed (s : Snapshot) : Type 0 where
  pub ordered : IsSorted database_guid s.databases
  pub valid : AllParticipants AreValid s

-- A result that is well formed unless an assertion ended the process.
abbrev pub IsGood : Outcome (Bool × Snapshot) → Type 0
IsGood (done (r, s)) = IsWellFormed s
IsGood aborted = Unit {0}

pub access_snapshot-IsWellFormed :
    (id : Guid) (name : String) (s : Snapshot)
    → IsWellFormed s
    → IsWellFormed (access_snapshot id name s)
unfolding new_database
access_snapshot-IsWellFormed id name s w = record {
  ordered = access_snapshot-IsSorted id name s w.ordered;
  valid = AllParticipants-access_snapshot AreValid id name s (tt, tt) w.valid;
}

pub write_participants-IsWellFormed :
    (id : Guid) (f : Participants → Participants) (s : Snapshot)
    → ((ps : Participants) → AreValid ps → AreValid (f ps))
    → IsWellFormed s
    → IsWellFormed (write_participants id f s)
write_participants-IsWellFormed id f s keeps w = record {
  ordered = write_participants-IsSorted id f s w.ordered;
  valid = AllParticipants-write_participants AreValid id f s keeps w.valid;
}

pub update-IsWellFormed :
    (id : Guid) (name : String) (f : Participants → Participants) (s : Snapshot)
    → ((ps : Participants) → AreValid ps → AreValid (f ps))
    → IsWellFormed s
    → IsWellFormed (update id name f s)
update-IsWellFormed id name f s keeps w =
    write_participants-IsWellFormed id f _ keeps (access_snapshot-IsWellFormed id name s w)

IsGood-if :
    (b : Bool) (s : Snapshot) → IsWellFormed s → IsGood (if b then done (true, s) else aborted)
IsGood-if true s w = w
IsGood-if false s w = tt

pub add_participant-IsGood :
    (ndebug : Bool) (spokesman : Guid) (src : String) (ptid : Guid) (name : String) (t : TimePoint)
    (server : Bool) (now : TimePoint) (s : Snapshot)
    → IsWellFormed s
    → IsGood (add_participant ndebug spokesman src ptid name t server now s)
unfolding add_participant
add_participant-IsGood ndebug spokesman src ptid name t server now s w = IsGood-if _ _ (
    update-IsWellFormed spokesman src (register ptid name server now t) s
      (register-AreValid ptid name server now t) w)

pub remove_database-IsWellFormed :
    (deceased : Guid) (s : Snapshot) → IsWellFormed s → IsWellFormed (remove_database deceased s).1
unfolding remove_database
remove_database-IsWellFormed deceased s w = record {
  ordered = erase-Above database_guid 0 deceased s.databases w.ordered;
  valid = All-erase database_guid (λ db. AreValid db.participants) deceased s.databases w.valid;
}

pub remove_participant-IsWellFormed :
    (spokesman ptid : Guid) (s : Snapshot)
    → IsWellFormed s
    → IsWellFormed (remove_participant spokesman ptid s).1
remove_participant-IsWellFormed spokesman ptid s w =
    rw (remove_participant-update spokesman ptid s w.ordered) (
      update-IsWellFormed spokesman "" (λ ps. (unregister ptid ps).1) s (unregister-AreValid ptid)
        w)

module _ {T : Type 0} (m : EndPoint T) where
  pub add_end_point-IsGood :
      (ndebug : Bool) (spokesman : Guid) (src : String) (ptid id : Guid) (type topic : String)
      (t now : TimePoint) (s : Snapshot)
      → IsWellFormed s
      → IsGood (add_end_point m ndebug spokesman src ptid id type topic t now s)
  unfolding add_end_point
  add_end_point-IsGood ndebug spokesman src ptid id type topic t now s w = IsGood-if _ _ (
      update-IsWellFormed spokesman src (add_to_participants m spokesman ptid id type topic t now) s
        (add_to_participants-AreValid m spokesman ptid id type topic t now) w)

  pub remove_end_point-IsWellFormed :
      (spokesman ptid id : Guid) (s : Snapshot)
      → IsWellFormed s
      → IsWellFormed (remove_end_point m spokesman ptid id s).1
  remove_end_point-IsWellFormed spokesman ptid id s w =
      elim (Option-cases (find database_guid spokesman s.databases)) [
        | inl e ↦ rw (remove_end_point_absent m spokesman ptid id s e) w
        | inr (db, e) ↦ rw (remove_end_point-update m spokesman ptid id s db w.ordered e) (
            update-IsWellFormed spokesman "" (λ ps. (remove_from_participants m ptid id ps).1) s
              (remove_from_participants-AreValid m ptid id) w)
      ]

set_reader_liveliness_guid :
    (subs : Guid) (a n : ℤ) (p : ParticipantDiscoveryItem)
    → (set_reader_liveliness subs a n p).endpoint_guid ≡ p.endpoint_guid
unfolding set_reader_liveliness
set_reader_liveliness_guid subs a n p = refl

set_reader_liveliness-IsValidItem :
    (subs : Guid) (a n : ℤ) (p : ParticipantDiscoveryItem)
    → IsValidItem p
    → IsValidItem (set_reader_liveliness subs a n p)
unfolding set_reader_liveliness count_endpoints
set_reader_liveliness-IsValidItem subs a n p v = record {
  sets = record {
    writers_sorted = v.sets.writers_sorted;
    readers_sorted =
        modify-Above reader_guid 0 subs _ p.datareaders (λ r. refl) v.sets.readers_sorted;
  };
  zombie_owns = λ dead. omega (
    arith,
    v.zombie_owns dead,
    length-modify reader_guid subs (set_liveliness a n) p.datareaders,
  );
}

pub liveliness_reported-AreValid :
    (pguid subs : Guid) (a n : ℤ) (ps : Participants)
    → AreValid ps
    → AreValid (liveliness_reported pguid subs a n ps)
unfolding liveliness_reported
liveliness_reported-AreValid pguid subs a n ps v =
    elim (Option-cases (seek participant_guid pguid ps)) [
      | inl e ↦ rw (e, liveliness_reported) v
      | inr (p, e) ↦ elim (Option-cases (seek reader_guid subs p.datareaders)) [
        | inl f ↦ rw (e, liveliness_reported) (rw (f, liveliness_reported) v)
        | inr (r, f) ↦
            rw (e, liveliness_reported)
              (rw (f, liveliness_reported)
                (
                  modify-Above participant_guid 0 pguid _ ps
                      (λ q. set_reader_liveliness_guid subs a n q) v.0,
                  All-modify participant_guid IsValidItem pguid _ ps
                      (set_reader_liveliness-IsValidItem subs a n) v.1,
                ))
      ]
    ]

pub update_sub_liveliness-IsWellFormed :
    (owner_of : Guid → Guid) (subs : Guid) (a n : ℤ) (s : Snapshot)
    → IsWellFormed s
    → IsWellFormed (update_sub_liveliness owner_of subs a n s)
unfolding update_sub_liveliness
update_sub_liveliness-IsWellFormed owner_of subs a n s w =
    elim (Option-cases (find database_guid (owner_of subs) s.databases)) [
      | inl e ↦ rw (e, update_sub_liveliness) w
      | inr (db, e) ↦
          rw (e, update_sub_liveliness)
            (rw (subscript-access_snapshot (owner_of subs) s) (
              update-IsWellFormed (owner_of subs) "" (liveliness_reported (owner_of subs) subs a n)
                s (liveliness_reported-AreValid (owner_of subs) subs a n) w))
    ]
