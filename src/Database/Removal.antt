-- ===== src/Database/Removal.antt =====
-- What the two RemoveParticipant change, as seen through `participant_at` and `database_at`.
use discovery_server.Prelude.{
  ◌≡◌, refl, false, not, ◌&&◌, Option, none, some, [], arith, ◌==◌, if◌then◌else◌, is_none,
}
use discovery_server.OrderedSet.{find}
use discovery_server.OrderedSet.Order.{IsSorted}
use discovery_server.OrderedSet.Lookup.{seek-find, find-modify, find-erase}
use discovery_server.Item.{
  Guid, ParticipantDiscoveryItem, participant_guid, acknowledge, count_endpoints,
}
use discovery_server.Snapshot.{Snapshot, new_database, participants_of}
use discovery_server.Snapshot.Lookup.{
  database_at, participant_at, participant_at-update, participant_at-participants_of,
  database_at-update,
}
use discovery_server.Database.{Participants, unregister, remove_participant}
use discovery_server.Database.Image.{remove_participant-update}
use discovery_server.Database.WellFormed.{IsWellFormed}
use discovery_server.Database.Participants.{participants_of-AreValid}

-- The item that RemoveParticipant leaves for a participant.
abbrev pub buried : Option ParticipantDiscoveryItem → Option ParticipantDiscoveryItem
buried none = none
buried (some p) = if 0 == count_endpoints p then none else some (record p { is_alive = false })

find-unregister :
    (p ptid : Guid) (ps : Participants)
    → IsSorted participant_guid ps
    → find participant_guid p (unregister ptid ps).1
      ≡ (if ptid == p then buried (find participant_guid p ps) else find participant_guid p ps)
unfolding unregister
find-unregister p ptid ps h = ground (
  arith,
  seek-find participant_guid ptid ps,
  find-erase participant_guid p ptid 0 ps h,
  find-modify participant_guid p ptid 0 (acknowledge false) ps (λ q. refl) h,
)

unregister_found :
    (ptid : Guid) (ps : Participants)
    → (unregister ptid ps).0 ≡ not (is_none (find participant_guid ptid ps))
unfolding unregister
unregister_found ptid ps = ground (arith, seek-find participant_guid ptid ps)

-- RemoveParticipant(spokesman, ptid) on a well-formed image: it tells whether the spokesman knew the
-- participant; one without endpoints goes, one with endpoints stays as a zombie, and no other
-- view changes.
pub participant_at-remove_participant :
    (spokesman ptid : Guid) (s : Snapshot) (k p : Guid)
    → IsWellFormed s
    → ((remove_participant spokesman ptid s).0 ≡ not (is_none (participant_at spokesman ptid s)))
      × (participant_at k p (remove_participant spokesman ptid s).1 ≡ (
          if spokesman == k && ptid == p
          then buried (participant_at spokesman ptid s)
          else participant_at k p s))
participant_at-remove_participant spokesman ptid s k p w = ground (
  arith,
  remove_participant-update spokesman ptid s w.ordered,
  unregister_found ptid (participants_of spokesman s),
  participant_at-update k p spokesman "" (λ ps. (unregister ptid ps).1) s w.ordered,
  find-unregister p ptid (participants_of spokesman s) (participants_of-AreValid spokesman s w).0,
  participant_at-participants_of spokesman ptid s,
  participant_at-participants_of spokesman p s,
)

-- On a well-formed image, although it returns false, a removal reported by an unknown spokesman leaves behind an empty
-- database without a name.
pub remove_participant_enters :
    (spokesman ptid : Guid) (s : Snapshot)
    → IsWellFormed s
    → database_at spokesman s ≡ none
    → ((remove_participant spokesman ptid s).0 ≡ false)
      × (database_at spokesman (remove_participant spokesman ptid s).1
          ≡ some (new_database spokesman ""))
unfolding new_database unregister participants_of find
remove_participant_enters spokesman ptid s w e = ground (
  arith,
  remove_participant-update spokesman ptid s w.ordered,
  seek-find participant_guid ptid [],
  database_at-update spokesman spokesman "" (λ ps. (unregister ptid ps).1) s w.ordered,
)
