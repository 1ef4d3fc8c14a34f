-- ===== src/Database/Participants.antt =====
-- What AddParticipant and RemoveParticipant change, as seen through `participant_at`: what a
-- spokesman knows of a participant.
use discovery_server.Prelude.{
  true, from_option, ◌≡◌, Bool, ◌&&◌, Option, none, some, String, arith, ◌==◌, if◌then◌else◌,
}
use discovery_server.OrderedSet.{find, emplace}
use discovery_server.OrderedSet.Order.{IsSorted, emplace-Above}
use discovery_server.OrderedSet.Lookup.{seek-find, find-emplace, find-modify}
use discovery_server.Outcome.{done}
use discovery_server.Item.{
  Guid, TimePoint, ParticipantDiscoveryItem, participant_guid, new_participant, set_name,
  acknowledge, set_server, set_discovered_timestamp,
}
use discovery_server.Snapshot.{Snapshot, participants_of}
use discovery_server.Snapshot.Lookup.{
  participant_at, participant_at-update, participant_at-participants_of,
  AllParticipants-participants_of,
}
use discovery_server.Database.{Participants, revive, register, add_participant}
use discovery_server.Database.Image.{add_participant_done}
use discovery_server.Database.Invariant.{AreValid, revive_guid}
use discovery_server.Database.WellFormed.{IsWellFormed}

pub participants_of-AreValid :
    (id : Guid) (s : Snapshot) → IsWellFormed s → AreValid (participants_of id s)
participants_of-AreValid id s w = AllParticipants-participants_of AreValid id s (tt, tt) w.valid

-- The item that AddParticipant leaves for the participant, given what was known of it.
abbrev pub registered :
    Guid
    → String
    → Bool
    → TimePoint
    → TimePoint
    → Option ParticipantDiscoveryItem
    → ParticipantDiscoveryItem
registered ptid name server now t none = new_participant ptid name server now
registered ptid name server now t (some p) = if p.is_alive then p else record p {
  is_alive = true;
  participant_name = name;
  is_server = server;
  discovered_timestamp = t;
}

revive_lem :
    (name : String) (server : Bool) (t : TimePoint) (p : ParticipantDiscoveryItem)
    → revive name server t p ≡ (
        if p.is_alive then p else record p {
          is_alive = true;
          participant_name = name;
          is_server = server;
          discovered_timestamp = t;
        })
unfolding revive set_name acknowledge set_server set_discovered_timestamp
revive_lem name server t p = ground arith

pub find-register :
    (p ptid : Guid) (name : String) (server : Bool) (now t : TimePoint) (ps : Participants)
    → IsSorted participant_guid ps
    → find participant_guid p (register ptid name server now t ps) ≡ (
        if ptid == p
        then some (registered ptid name server now t (find participant_guid ptid ps))
        else find participant_guid p ps)
unfolding register new_participant
find-register p ptid name server now t ps h = ground (
  revive_lem name server t
      (from_option (find participant_guid ptid ps) (new_participant ptid name server now)),
  arith,
  seek-find participant_guid ptid ps,
  emplace-Above participant_guid 0 (new_participant ptid name server now) ps,
  find-emplace participant_guid p 0 (new_participant ptid name server now) ps h,
  find-modify participant_guid p ptid 0 (revive name server t) ps (revive_guid name server t) h,
  find-modify participant_guid p ptid 0 (revive name server t)
      (emplace participant_guid (new_participant ptid name server now) ps)
      (revive_guid name server t),
)

-- AddParticipant on a well-formed image, where its assertion does not end the process: in the
-- spokesman's view a participant that was unknown is the item of the constructor, a dead one lives
-- again with the name, the flag and the time given, a living one stays as it was, and no other view
-- changes.
pub participant_at-add_participant :
    (ndebug : Bool) (spokesman : Guid) (src : String) (ptid : Guid) (name : String) (t : TimePoint)
    (server : Bool) (now : TimePoint) (s : Snapshot) {r : Bool} {s' : Snapshot} (k p : Guid)
    → IsWellFormed s
    → add_participant ndebug spokesman src ptid name t server now s ≡ done (r, s')
    → participant_at k p s' ≡ (
        if spokesman == k && ptid == p
        then some (registered ptid name server now t (participant_at spokesman ptid s))
        else participant_at k p s)
participant_at-add_participant ndebug spokesman src ptid name t server now s k p w e = ground (
  arith,
  add_participant_done ndebug spokesman src ptid name t server now s e,
  participant_at-update k p spokesman src (register ptid name server now t) s w.ordered,
  find-register p ptid name server now t (participants_of spokesman s)
      (participants_of-AreValid spokesman s w).0,
  participant_at-participants_of spokesman ptid s,
  participant_at-participants_of spokesman p s,
)
