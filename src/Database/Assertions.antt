-- ===== src/Database/Assertions.antt =====
-- When the assertion of AddParticipant, src/DiscoveryItem.cpp, ends the process.
use discovery_server.Prelude.{
  ◌≡◌, refl, ap, ◌∙◌, Bool, true, false, not, ◌&&◌, Option, none, some, String, arith,
}
use discovery_server.OrderedSet.{find}
use discovery_server.Outcome.{Outcome, done, aborted, assert_then}
use discovery_server.Item.{
  Guid, TimePoint, ParticipantDiscoveryItem, participant_guid, new_participant,
}
use discovery_server.Snapshot.{Snapshot, participants_of}
use discovery_server.Snapshot.Lookup.{
  participant_at, update, participants_of-update, participant_at-participants_of,
}
use discovery_server.Database.{Participants, register, is_server_of, add_participant}
use discovery_server.Database.WellFormed.{IsWellFormed}
use discovery_server.Database.Participants.{registered, find-register, participants_of-AreValid}

abbrev pub is_aborted : {A : Type 0} → Outcome A → Bool
is_aborted (done a) = false
is_aborted aborted = true

abbrev differ : Bool → Bool → Bool
differ true b = not b
differ false b = b

-- The participant is known to live, as a server where a client is reported, or the other way round.
abbrev pub clashes : Bool → Option ParticipantDiscoveryItem → Bool
clashes server none = false
clashes server (some p) = p.is_alive && differ p.is_server server

is_aborted-assert_then :
    {A : Type 0} (ndebug cond : Bool) (a : A)
    → is_aborted (assert_then ndebug cond a) ≡ (not ndebug && not cond)
is_aborted-assert_then true cond a = refl
is_aborted-assert_then false true a = refl
is_aborted-assert_then false false a = refl

is_server_of-registered :
    (ptid : Guid) (name : String) (server : Bool) (now t : TimePoint)
    (q : Option ParticipantDiscoveryItem)
    → not (is_server_of server (some (registered ptid name server now t q))) ≡ clashes server q
unfolding new_participant
is_server_of-registered ptid name true now t none = refl
is_server_of-registered ptid name false now t none = refl
is_server_of-registered ptid name true now t (some p) = ground arith
is_server_of-registered ptid name false now t (some p) = ground arith

-- On a well-formed image the assertion of AddParticipant fails exactly if the build has assertions
-- and the spokesman knows the participant to live, as a server where a client is reported or as a
-- client where a server is; otherwise the call returns.
pub is_aborted-add_participant :
    (ndebug : Bool) (spokesman : Guid) (src : String) (ptid : Guid) (name : String) (t : TimePoint)
    (server : Bool) (now : TimePoint) (s : Snapshot)
    → IsWellFormed s
    → is_aborted (add_participant ndebug spokesman src ptid name t server now s)
      ≡ (not ndebug && clashes server (participant_at spokesman ptid s))
unfolding add_participant
is_aborted-add_participant ndebug spokesman src ptid name t server now s w =
    is_aborted-assert_then ndebug _ _
    ∙ ap (λ b. not ndebug && b)
        (ap (λ x. not (is_server_of server x)) there
          ∙ is_server_of-registered ptid name server now t (participant_at spokesman ptid s))
  where
    ps : Participants
    ps = participants_of spokesman s

    there :
        find participant_guid ptid
          (participants_of spokesman (update spokesman src (register ptid name server now t) s))
        ≡ some (registered ptid name server now t (participant_at spokesman ptid s))
    there = ground (
      arith,
      participants_of-update spokesman spokesman src (register ptid name server now t) s w.ordered,
      find-register ptid ptid name server now t ps (participants_of-AreValid spokesman s w).0,
      participant_at-participants_of spokesman ptid s,
    )
