-- ===== src/Events/TrackedEndpoints.antt =====
-- The creation and the destruction of an endpoint keep the participants of the manager,
-- include/LateJoiner.h.
use discovery_server.Prelude.{
  Bool, Option, none, some, String, Option-cases, inl, inr, Bool-cases, str_eq,
}
use discovery_server.Outcome.{Outcome-cases}
use discovery_server.Item.{Guid}
use discovery_server.Manager.{Manager, Pointer}
use discovery_server.Manager.Entities.{get_participant_topic_by_name}
use discovery_server.Manager.Created.{
  set_domain_entity_topic, enter_info, get_pubsub, delete_endpoint,
}
use discovery_server.Dds.{Dds}
use discovery_server.Events.Kinds.{Kind}
use discovery_server.Events.{DelayedEndpointCreation, Process}
use discovery_server.Events.Endpoints.{
  add_endpoint, topic_for, topic_of_event, enter_endpoint, create_behind, create_for,
  create_delayed_endpoint, create_endpoint, remove_endpoint, destroy_endpoint,
}
use discovery_server.Events.Tracked.{IsTracked, TrackedAfter}
use discovery_server.Events.TrackedEntities.{
  enter_info-IsTracked, set_participant_topic-IsTracked, get_participant_topic-IsTracked,
  add_endpoint-IsTracked, remove_endpoint-IsTracked, set_domain_entity_topic-IsTracked,
}

module _ (d : Dds) (ndebug : Bool) where
  topic_for-IsTracked :
      (part : Pointer) (name : String) (create : d.World → Option Pointer × d.World) (w : d.World)
      (m : Manager)
      → IsTracked d m
      → IsTracked d (topic_for d part name create w m).1.1
  unfolding topic_for
  topic_for-IsTracked part name create w m o =
      let om = get_participant_topic-IsTracked d (d.guid part) name m o in
      elim (Option-cases (get_participant_topic_by_name (some (d.guid part)) name m).0) [
        | inr (t, e) ↦ rw (e, topic_for) om
        | inl e ↦ rw (e, topic_for) (set_participant_topic-IsTracked d (some (d.guid part)) _ _ om)
      ]

  enter_endpoint-IsTracked :
      (kind : Kind) (c : DelayedEndpointCreation) (e topic : Option Pointer) (w : d.World)
      (m : Manager) (r : Process d)
      → IsTracked d m
      → TrackedAfter d (enter_endpoint d ndebug kind c e topic w m r)
  unfolding enter_endpoint
  enter_endpoint-IsTracked kind c none topic w m r om = om
  enter_endpoint-IsTracked kind c (some e) topic w m r om =
      elim (Outcome-cases (
        add_endpoint ndebug kind (some (d.guid e, e))
          (set_domain_entity_topic d kind (some e) topic m))) [
            | inr h ↦ rw h tt
            | inl (m', h) ↦ rw h (
                add_endpoint-IsTracked d ndebug kind (d.guid e, e)
                  (set_domain_entity_topic d kind (some e) topic m)
                  (set_domain_entity_topic-IsTracked d kind (some e) topic m om) h)
          ]

  topic_of_event-IsTracked :
      (c : DelayedEndpointCreation) (part : Pointer) (w : d.World) (m : Manager)
      → IsTracked d m
      → IsTracked d (topic_of_event d c part w m).1.1
  unfolding topic_of_event
  topic_of_event-IsTracked c part w m o = elim (Bool-cases (str_eq c.type_name "UNDEF")) [
    | inl e ↦ rw e (
        topic_for-IsTracked part "HelloWorldTopic"
          (d.create_topic part "HelloWorldTopic" "HelloWorld") w m o)
    | inr e ↦ rw e (
        topic_for-IsTracked part c.topic_name
          (d.create_topic_with_profile part c.topic_name c.type_name c.topic_profile_name) w m o)
  ]

  create_for-IsTracked :
      (kind : Kind) (c : DelayedEndpointCreation) (part pubsub : Option Pointer) (m : Manager)
      (r : Process d)
      → IsTracked d m
      → TrackedAfter d (create_for d ndebug kind c part pubsub m r)
  unfolding create_for create_behind
  create_for-IsTracked kind c none pubsub m r om = om
  create_for-IsTracked kind c (some part) none m r om = tt
  create_for-IsTracked kind c (some part) (some pubsub) m r om =
      let topic = topic_of_event d c part (d.register_type part r.world) m in
      let e = create_endpoint d kind pubsub topic.0 c.endpoint_profile_name topic.1.0 in
      enter_endpoint-IsTracked kind c e.0 topic.0 e.1 topic.1.1 r
        (topic_of_event-IsTracked c part (d.register_type part r.world) m om)

  pub create_delayed_endpoint-IsTracked :
      (kind : Kind) (c : DelayedEndpointCreation) (r : Process d)
      → IsTracked d r.manager
      → TrackedAfter d (create_delayed_endpoint d ndebug kind c r)
  unfolding create_delayed_endpoint get_pubsub
  create_delayed_endpoint-IsTracked kind c r o =
      create_for-IsTracked kind c _ _ (enter_info c.participant_guid r.manager) r
        (enter_info-IsTracked d c.participant_guid r.manager o)

  destroyed_endpoint :
      (kind : Kind) (p : Pointer) (w : d.World) (m : Manager)
      → IsTracked d m
      → IsTracked d (delete_endpoint d kind (some p) w m).1.1
  unfolding delete_endpoint get_pubsub
  destroyed_endpoint kind p w m o = enter_info-IsTracked d (d.guid (d.participant_of p)) m o

  pub destroy_endpoint-IsTracked :
      (kind : Kind) (id : Guid) (r : Process d)
      → IsTracked d r.manager
      → IsTracked d (destroy_endpoint d ndebug kind id r).manager
  unfolding destroy_endpoint
  destroy_endpoint-IsTracked kind id r o =
      let om = remove_endpoint-IsTracked d kind id r.manager o in
      elim (Option-cases (remove_endpoint kind id r.manager).0) [
        | inl e ↦ rw (e, destroy_endpoint) om
        | inr (p, e) ↦
            rw (e, destroy_endpoint)
              (destroyed_endpoint kind p r.world (remove_endpoint kind id r.manager).1 om)
      ]
