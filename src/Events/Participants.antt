-- ===== src/Events/Participants.antt =====
-- The operators () of the events that create and destroy participants, src/LateJoiner.cpp. A call
-- through a null pointer is taken to end the process, as a failed assertion does.
use discovery_server.Prelude.{Bool, Option, none, some}
use discovery_server.Outcome.{Outcome, done, aborted, ◌>>=◌}
use discovery_server.Item.{Guid}
use discovery_server.Manager.{Manager, Pointer, ParticipantCreatedEntityInfo}
use discovery_server.Manager.Maps.{add_server, add_client, add_simple, remove_participant}
use discovery_server.Manager.Entities.{set_participant_info}
use discovery_server.Manager.Created.{delete_participant, no_info}
use discovery_server.Dds.{Dds}
use discovery_server.Events.{
  Role, as_server, as_client, as_simple, DelayedParticipantCreation, Process, through,
  set_participant_guid, set_created_guid,
}

unfoldable pub add_in_role : Bool → Role → Guid → Pointer → Manager → Outcome Manager
unfolding add_server add_client add_simple
add_in_role ndebug as_server id p m = add_server ndebug id p m
add_in_role ndebug as_client id p m = add_client ndebug id p m
add_in_role ndebug as_simple id p m = add_simple ndebug id p m

-- The members of `info` that are not set here are null until they are.
abbrev pub new_info : Pointer → Option Pointer → Option Pointer → ParticipantCreatedEntityInfo
new_info p publisher subscriber = record no_info {
  participant = some p;
  publisher = publisher;
  subscriber = subscriber;
}

module _ (d : Dds) (ndebug : Bool) where
  -- What follows create_participant. `self` points to the event.
  unfoldable pub enter_participant :
      Pointer
      → DelayedParticipantCreation d.Qos
      → Option Pointer
      → d.World
      → Process d
      → Outcome (Process d)
  unfolding add_in_role through set_participant_guid set_created_guid
  enter_participant self c none w r = aborted
  enter_participant self c (some p) w r =
      let pub' = d.create_publisher p w in
      let sub = d.create_subscriber p pub'.1 in
      do
        m ← add_in_role ndebug c.role (d.guid p) p r.manager
        done (record r {
          world = sub.1;
          manager = set_participant_info (d.guid p) (new_info p pub'.0 sub.0) m;
          events =
              through c.removal_event (set_participant_guid (d.guid p))
                (through (some self) (set_created_guid (d.guid p)) r.events);
        })

  -- DelayedParticipantCreation::operator ().
  unfoldable pub create_participant :
      Pointer → DelayedParticipantCreation d.Qos → Process d → Outcome (Process d)
  unfolding enter_participant
  create_participant self c r =
      let p = d.create_participant c.qos r.world in enter_participant self c p.0 p.1 r

  -- DelayedParticipantDestruction::operator ().
  unfoldable pub destroy_participant : Guid → Process d → Process d
  destroy_participant id r =
      let p = remove_participant d.prefix id r.manager in
      let s = delete_participant d p.0 r.world p.1 in record r { world = s.1.0; manager = s.1.1 }
