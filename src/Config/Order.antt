-- ===== src/Config/Order.antt =====
-- The endpoints of a participant that is created late, src/DiscoveryServerManager.cpp.
use discovery_server.Prelude.{
  ◌≡◌, refl, ap, ◌∙◌, Bool, true, false, none, some, String, arith, from_option,
}
use discovery_server.Prelude.Int.{ℤ, pos, ◌+ℤ◌, ltb_ℤ, eqb_ℤ, +ℤ_parts}
use discovery_server.Outcome.{done}
use discovery_server.Item.{Guid}
use discovery_server.Manager.{Pointer}
use discovery_server.Dds.{Dds}
use discovery_server.Events.Kinds.{Kind}
use discovery_server.Events.{
  DelayedParticipantCreation, DelayedEndpointCreation, participant_creation, endpoint_creation,
  earlier, event_at, execution_time,
}
use discovery_server.Ids.{s_creation_time, s_removal_time}
use discovery_server.Xml.{Xml}
use discovery_server.Config.{
  Loading, profile_name, topic, profile_at, get_time, push_event, time_attribute,
}
use discovery_server.Config.Endpoints.{
  EndpointPlan, time_of, matched_times, push_removal, create_or_push, planned_times,
  load_with_topic, load_planned, load_endpoint,
}

pub eqb_ℤ_refl : (a : ℤ) → eqb_ℤ a a ≡ true
eqb_ℤ_refl a = ground arith

next_ns_later : (t : ℤ) → ltb_ℤ t (t +ℤ pos 1) ≡ true
next_ns_later t = ground (arith, +ℤ_parts t (pos 1))

module _ (d : Dds) (ndebug : Bool) (x : Xml) (read_int : String → ℤ) (kind : Kind)
    (part_guid : Guid) (e : x.Element) (p : Pointer) (c : DelayedParticipantCreation d.Qos)
    (l : Loading d) where
  -- The event of an endpoint without times of its own.
  abbrev late_endpoint : String → DelayedEndpointCreation
  late_endpoint topic_name =
      let description = profile_at topic_name l.topic_profiles in
      record {
        time = c.time +ℤ pos 1;
        topic_name = description.name;
        type_name = description.type_name;
        topic_profile_name = topic_name;
        endpoint_profile_name = from_option (x.attribute profile_name e) "";
        participant_guid = part_guid;
        linked_destruction_event = none;
        owner_event = some p;
      }

  abbrev plan : EndpointPlan
  plan = record { creation_time = c.time +ℤ pos 1; removal_time = get_time d l }

  matched :
      event_at p l.process.events ≡ some (participant_creation c)
      → matched_times d (some p) none l ≡ some plan
  unfolding matched_times time_of execution_time
  matched there = rw there refl

  pub unplanned :
      x.attribute s_creation_time e ≡ none
      → x.attribute s_removal_time e ≡ none
      → planned_times d ndebug x read_int e l plan ≡ plan
  unfolding planned_times time_attribute
  unplanned no_creation no_removal = rw (no_creation, no_removal) refl

  pub not_removed : push_removal d kind (get_time d l) l ≡ (none, l)
  unfolding push_removal
  not_removed = rw (eqb_ℤ_refl (get_time d l)) refl

  loaded :
      {topic_name : String}
      → x.attribute topic e ≡ some topic_name
      → eqb_ℤ (c.time +ℤ pos 1) (get_time d l) ≡ false
      → load_planned d ndebug x read_int kind part_guid e (some p) plan l
        ≡ done (push_event d (endpoint_creation kind (late_endpoint topic_name)) l)
  unfolding load_planned load_with_topic create_or_push
  loaded {topic_name} named late =
      ap
        (λ r.
          load_with_topic d ndebug x read_int kind part_guid e (some p) (c.time +ℤ pos 1) r.0
            (x.attribute topic e) r.1)
        not_removed
      ∙ ap
          (λ t.
            load_with_topic d ndebug x read_int kind part_guid e (some p) (c.time +ℤ pos 1) none t
              l)
          named
      ∙ rw late refl

  -- An endpoint with a topic and no times of its own, whose participant an event creates, where that
  -- event stands in the store and the endpoint's turn is not the start itself: the loader only queues
  -- the endpoint's creation, as an event that is associated with the participant's and that, by the
  -- order in which runEvents sorts, the participant's creation precedes.
  pub load_endpoint_late :
      {topic_name : String}
      → event_at p l.process.events ≡ some (participant_creation c)
      → x.attribute s_creation_time e ≡ none
      → x.attribute s_removal_time e ≡ none
      → x.attribute topic e ≡ some topic_name
      → eqb_ℤ (c.time +ℤ pos 1) (get_time d l) ≡ false
      → (event : DelayedEndpointCreation) × (load_endpoint d ndebug x read_int kind part_guid e
            (some p)
            none
            l
          ≡ done (push_event d (endpoint_creation kind event) l))
        × (event.owner_event ≡ some p)
        × (earlier (participant_creation c) (endpoint_creation kind event) ≡ true)
  unfolding load_endpoint earlier
  load_endpoint_late {topic_name} there no_creation no_removal named late = (
    late_endpoint topic_name,
    rw (matched there, load_endpoint, unplanned no_creation no_removal) (loaded named late),
    refl,
    next_ns_later c.time,
  )
