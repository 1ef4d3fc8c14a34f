-- ===== src/Events/Endpoints.antt =====
-- The operators () of the events that create and destroy readers and writers, include/LateJoiner.h,
-- with createEndpoint, src/LateJoiner.cpp.
use discovery_server.Prelude.{
  Bool, Option, none, some, String, str_eq, if◌then◌else◌, bind_option, map_option,
}
use discovery_server.Outcome.{Outcome, done, aborted, ◌>>=◌}
use discovery_server.Item.{Guid}
use discovery_server.Manager.{Manager, Pointer}
use discovery_server.Manager.Maps.{
  get_participant, add_data_reader, add_data_writer, remove_subscriber, remove_publisher,
}
use discovery_server.Manager.Entities.{set_participant_topic, get_participant_topic_by_name}
use discovery_server.Manager.Created.{get_pubsub, set_domain_entity_topic, delete_endpoint}
use discovery_server.Dds.{Dds}
use discovery_server.Events.Kinds.{Kind, of_reader, of_writer}
use discovery_server.Events.{
  DelayedEndpointCreation, Process, Store, through, set_endpoint_guid, created_guid, event_at,
}

unfoldable pub add_endpoint : Bool → Kind → Option (Guid × Pointer) → Manager → Outcome Manager
add_endpoint ndebug of_reader e m = add_data_reader ndebug e m
add_endpoint ndebug of_writer e m = add_data_writer ndebug e m

unfoldable pub remove_endpoint : Kind → Guid → Manager → Option Pointer × Manager
remove_endpoint of_reader id m = remove_subscriber id m
remove_endpoint of_writer id m = remove_publisher id m

module _ (d : Dds) where
  -- createEndpoint, behind a publisher or subscriber that is not null.
  unfoldable pub create_endpoint :
      Kind → Pointer → Option Pointer → String → d.World → Option Pointer × d.World
  create_endpoint of_reader sub topic profile_name w =
      if str_eq profile_name ""
      then d.create_datareader sub topic w
      else d.create_datareader_with_profile sub topic profile_name w
  create_endpoint of_writer pub' topic profile_name w =
      if str_eq profile_name ""
      then d.create_datawriter pub' topic w
      else d.create_datawriter_with_profile pub' topic profile_name w

  -- The participant that was found under the event's own GUID, or else that of the associated event.
  unfoldable pub participant_for :
      Option Pointer → DelayedEndpointCreation → Store d.Qos → Manager → Option Pointer
  participant_for (some part) c es m = some part
  participant_for none c es m =
      bind_option (bind_option c.owner_event (λ p. bind_option (event_at p es) created_guid))
        (λ id. get_participant id m)

  -- The topic by its name, which is created and registered where there is none.
  unfoldable pub topic_for :
      Pointer
      → String
      → (d.World → Option Pointer × d.World)
      → d.World
      → Manager
      → Option Pointer × (d.World × Manager)
  topic_for part name create w m =
      let found = get_participant_topic_by_name (some (d.guid part)) name m in
      elim found.0 [
        | some topic ↦ (some topic, (w, found.1))
        | none ↦
            let made = create w in
            (
              made.0,
              (
                made.1,
                set_participant_topic (some (d.guid part)) (map_option (λ t. (name, t)) made.0)
                    found.1,
              ),
            )
      ]

  -- A type that is not defined stands for the built-in topic of HelloWorld.
  unfoldable pub topic_of_event :
      DelayedEndpointCreation → Pointer → d.World → Manager → Option Pointer × (d.World × Manager)
  unfolding topic_for
  topic_of_event c part w m =
      if str_eq c.type_name "UNDEF"
      then topic_for part "HelloWorldTopic" (d.create_topic part "HelloWorldTopic" "HelloWorld") w m
      else topic_for part c.topic_name
          (d.create_topic_with_profile part c.topic_name c.type_name c.topic_profile_name) w m

  module _ (ndebug : Bool) where
    -- What follows createEndpoint.
    unfoldable pub enter_endpoint :
        Kind
        → DelayedEndpointCreation
        → Option Pointer
        → Option Pointer
        → d.World
        → Manager
        → Process d
        → Outcome (Process d)
    unfolding add_endpoint through set_endpoint_guid
    enter_endpoint kind c none topic w m r = done (record r { world = w; manager = m })
    enter_endpoint kind c (some e) topic w m r = do
      m' ←
          add_endpoint ndebug kind (some (d.guid e, e))
            (set_domain_entity_topic d kind (some e) topic m)
      done (record r {
        world = w;
        manager = m';
        events = through c.linked_destruction_event (set_endpoint_guid (d.guid e)) r.events;
      })

    -- What follows the search of the participant, with the publisher or subscriber, which may be null.
    unfoldable pub create_behind :
        Kind
        → DelayedEndpointCreation
        → Option Pointer
        → Pointer
        → Manager
        → Process d
        → Outcome (Process d)
    create_behind kind c none part m r = aborted
    create_behind kind c (some pubsub) part m r =
        let topic = topic_of_event c part (d.register_type part r.world) m in
        let e = create_endpoint kind pubsub topic.0 c.endpoint_profile_name topic.1.0 in
        enter_endpoint kind c e.0 topic.0 e.1 topic.1.1 r

    -- What follows the search of the participant. Without one nothing more is done.
    unfoldable pub create_for :
        Kind
        → DelayedEndpointCreation
        → Option Pointer
        → Option Pointer
        → Manager
        → Process d
        → Outcome (Process d)
    create_for kind c none pubsub m r = done (record r { manager = m })
    create_for kind c (some part) pubsub m r = create_behind kind c pubsub part m r

    -- DelayedEndpointCreation::operator ().
    unfoldable pub create_delayed_endpoint :
        Kind → DelayedEndpointCreation → Process d → Outcome (Process d)
    create_delayed_endpoint kind c r =
        let pubsub = get_pubsub kind c.participant_guid r.manager in
        let part =
          participant_for (get_participant c.participant_guid r.manager) c r.events pubsub.1 in
        create_for kind c part pubsub.0 pubsub.1 r

    -- DelayedEndpointDestruction::operator ().
    unfoldable pub destroy_endpoint : Kind → Guid → Process d → Process d
    unfolding remove_endpoint delete_endpoint
    destroy_endpoint kind id r =
        let e = remove_endpoint kind id r.manager in
        elim e.0 [
          | none ↦ record r { manager = e.1 }
          | some p ↦
              let s = delete_endpoint d kind (some p) r.world e.1 in
              record r { world = s.1.0; manager = s.1.1 }
        ]
