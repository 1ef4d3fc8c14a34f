-- ===== src/Config/Endpoints.antt =====
-- loadSubscriber and loadPublisher, src/DiscoveryServerManager.cpp: the same for both kinds. An event
-- is either run at once or queued.
use discovery_server.Prelude.{
  Bool, Option, none, some, String, from_option, if◌then◌else◌, map_option,
}
use discovery_server.Prelude.Int.{ℤ, pos, ◌+ℤ◌, ◌-ℤ◌, eqb_ℤ}
use discovery_server.Outcome.{Outcome, done, aborted, ◌>>=◌}
use discovery_server.Item.{Guid, TimePoint}
use discovery_server.Manager.{Pointer}
use discovery_server.Dds.{Dds}
use discovery_server.Events.Kinds.{Kind}
use discovery_server.Events.{
  DelayedEndpointCreation, endpoint_creation, endpoint_destruction, execution_time, event_at, Store,
  unknown,
}
use discovery_server.Events.Endpoints.{create_delayed_endpoint}
use discovery_server.Ids.{s_creation_time, s_removal_time}
use discovery_server.Xml.{Xml}
use discovery_server.Config.{
  Loading, profile_name, topic, new_pointer, profile_at, get_time, push_event, time_attribute,
}

-- When the endpoint is created and removed, and its topic.
pub record EndpointPlan : Type 0 where
  pub creation_time : TimePoint
  pub removal_time : TimePoint

module _ (d : Dds) where
  -- executionTime of the event behind a pointer.
  unfoldable pub time_of : Pointer → Store d.Qos → Option TimePoint
  unfolding event_at execution_time
  time_of p es = map_option execution_time (event_at p es)

  -- The times before the attributes: a nanosecond behind the creation of the participant. With an
  -- event of the participant's destruction, the code takes the time of its creation.
  unfoldable pub matched_times : Option Pointer → Option Pointer → Loading d → Option EndpointPlan
  unfolding time_of
  matched_times none none l =
      some (record { creation_time = get_time d l; removal_time = get_time d l })
  matched_times none (some destruction) l = none
  matched_times (some creation) none l =
      map_option (λ t. record { creation_time = t +ℤ pos 1; removal_time = get_time d l })
        (time_of creation l.process.events)
  matched_times (some creation) (some destruction) l =
      map_option (λ t. record { creation_time = (t +ℤ pos 1) -ℤ pos 1; removal_time = t })
        (time_of creation l.process.events)

  -- The event of the endpoint's removal, where that is not at the start.
  unfoldable pub push_removal : Kind → TimePoint → Loading d → Option Pointer × Loading d
  unfolding push_event
  push_removal kind removal_time l = if eqb_ℤ removal_time (get_time d l) then (none, l) else (
    some (new_pointer l.process.events),
    push_event d (endpoint_destruction kind removal_time unknown) l,
  )

  module _ (ndebug : Bool) where
    -- The creation, at once or as an event.
    unfoldable pub create_or_push : Kind → DelayedEndpointCreation → Loading d → Outcome (Loading d)
    create_or_push kind event l =
        if eqb_ℤ event.time (get_time d l)
        then (create_delayed_endpoint d ndebug kind event l.process >>= λ r.
            done (record l { process = r }))
        else done (push_event d (endpoint_creation kind event) l)

    module _ (x : Xml) (read_int : String → ℤ) where
      -- What the attributes say of the times.
      unfoldable pub planned_times : x.Element → Loading d → EndpointPlan → EndpointPlan
      unfolding time_attribute
      planned_times e l plan = record {
        creation_time =
            time_attribute d x read_int s_creation_time (get_time d l) e plan.creation_time;
        removal_time =
            time_attribute d x read_int s_removal_time (get_time d l) e plan.removal_time;
      }

      -- What follows the times and the event of the removal. The name of the topic is a std::string
      -- that is made of a null pointer where there is no such attribute.
      unfoldable pub load_with_topic :
          Kind
          → Guid
          → x.Element
          → Option Pointer
          → TimePoint
          → Option Pointer
          → Option String
          → Loading d
          → Outcome (Loading d)
      load_with_topic kind part_guid e owner creation_time removal none l = aborted
      load_with_topic kind part_guid e owner creation_time removal (some topic_name) l =
          let description = profile_at topic_name l.topic_profiles in
          create_or_push kind
            (record {
              time = creation_time;
              topic_name = description.name;
              type_name = description.type_name;
              topic_profile_name = topic_name;
              endpoint_profile_name = from_option (x.attribute profile_name e) "";
              participant_guid = part_guid;
              linked_destruction_event = removal;
              owner_event = owner;
            })
            l

      unfoldable pub load_planned :
          Kind → Guid → x.Element → Option Pointer → EndpointPlan → Loading d → Outcome (Loading d)
      load_planned kind part_guid e owner plan l =
          let removal = push_removal kind plan.removal_time l in
          load_with_topic kind part_guid e owner plan.creation_time removal.0 (x.attribute topic e)
            removal.1

      -- loadSubscriber and loadPublisher, with the events of the participant's creation and
      -- destruction.
      unfoldable pub load_endpoint :
          Kind
          → Guid
          → x.Element
          → Option Pointer
          → Option Pointer
          → Loading d
          → Outcome (Loading d)
      load_endpoint kind part_guid e creation destruction l =
          elim (matched_times creation destruction l) [
            | none ↦ aborted
            | some plan ↦ load_planned kind part_guid e creation (planned_times e l plan) l
          ]
