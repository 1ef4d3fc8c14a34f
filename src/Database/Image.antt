-- ===== src/Database/Image.antt =====
-- Each operation of DiscoveryItemDatabase as one update of the spokesman's database.
use discovery_server.Prelude.{◌≡◌, refl, Bool, true, false, none, some, String, arith}
use discovery_server.OrderedSet.Order.{IsSorted}
use discovery_server.Outcome.{done}
use discovery_server.Item.{Guid, TimePoint}
use discovery_server.Item.EndPoint.{EndPoint}
use discovery_server.Snapshot.{
  ParticipantDiscoveryDatabase, Snapshot, database_guid, participants_of,
}
use discovery_server.Snapshot.Lookup.{
  database_at, update, participants_of-access_snapshot, subscript-access_snapshot,
}
use discovery_server.Database.{
  register, add_participant, unregister, remove_participant, add_to_participants, add_end_point,
  remove_from_participants, remove_end_point,
}

-- In a build without assertions AddParticipant always returns.
pub add_participant_ndebug :
    (spokesman : Guid) (src : String) (ptid : Guid) (name : String) (t : TimePoint) (server : Bool)
    (now : TimePoint) (s : Snapshot)
    → add_participant true spokesman src ptid name t server now s
      ≡ done (true, update spokesman src (register ptid name server now t) s)
unfolding add_participant
add_participant_ndebug spokesman src ptid name t server now s = refl

pub add_participant_done :
    (ndebug : Bool) (spokesman : Guid) (src : String) (ptid : Guid) (name : String) (t : TimePoint)
    (server : Bool) (now : TimePoint) (s : Snapshot) {r : Bool} {s' : Snapshot}
    → add_participant ndebug spokesman src ptid name t server now s ≡ done (r, s')
    → (r ≡ true) × (s' ≡ update spokesman src (register ptid name server now t) s)
unfolding add_participant
add_participant_done ndebug spokesman src ptid name t server now s e = ground arith

pub remove_participant-update :
    (spokesman ptid : Guid) (s : Snapshot)
    → IsSorted database_guid s.databases
    → remove_participant spokesman ptid s ≡ (
      (unregister ptid (participants_of spokesman s)).0,
      update spokesman "" (λ ps. (unregister ptid ps).1) s,
    )
unfolding remove_participant
remove_participant-update spokesman ptid s h =
    rw (subscript-access_snapshot spokesman s, participants_of-access_snapshot spokesman "" s h)

module _ {T : Type 0} (m : EndPoint T) where
  pub add_end_point_ndebug :
      (spokesman : Guid) (src : String) (ptid id : Guid) (type topic : String) (t now : TimePoint)
      (s : Snapshot)
      → add_end_point m true spokesman src ptid id type topic t now s
        ≡ done (
          true,
          update spokesman src (add_to_participants m spokesman ptid id type topic t now) s,
        )
  unfolding add_end_point
  add_end_point_ndebug spokesman src ptid id type topic t now s = refl

  pub add_end_point_done :
      (ndebug : Bool) (spokesman : Guid) (src : String) (ptid id : Guid) (type topic : String)
      (t now : TimePoint) (s : Snapshot) {r : Bool} {s' : Snapshot}
      → add_end_point m ndebug spokesman src ptid id type topic t now s ≡ done (r, s')
      → (r ≡ true)
        × (s' ≡ update spokesman src (add_to_participants m spokesman ptid id type topic t now) s)
  unfolding add_end_point
  add_end_point_done ndebug spokesman src ptid id type topic t now s e = ground arith

  pub remove_end_point_absent :
      (spokesman ptid id : Guid) (s : Snapshot)
      → database_at spokesman s ≡ none
      → remove_end_point m spokesman ptid id s ≡ (false, s)
  unfolding remove_end_point
  remove_end_point_absent spokesman ptid id s e = rw (e, remove_end_point)

  pub remove_end_point-update :
      (spokesman ptid id : Guid) (s : Snapshot) (db : ParticipantDiscoveryDatabase)
      → IsSorted database_guid s.databases
      → database_at spokesman s ≡ some db
      → remove_end_point m spokesman ptid id s ≡ (
        (remove_from_participants m ptid id (participants_of spokesman s)).0,
        update spokesman "" (λ ps. (remove_from_participants m ptid id ps).1) s,
      )
  unfolding remove_end_point
  remove_end_point-update spokesman ptid id s db h e =
      rw (e, remove_end_point)
        (rw
          (subscript-access_snapshot spokesman s, participants_of-access_snapshot spokesman "" s h)
          refl)
