-- ===== src/Events/Orphans.antt =====
-- Endpoints whose own event does not know their participant, include/LateJoiner.h.
use discovery_server.Prelude.{
  ◌≡◌, refl, ap, ◌∙◌, Bool, false, none, some, [], ◌∷◌, arith, ◌==◌, bind_option, ==_refl,
}
use discovery_server.OrderedSet.{find}
use discovery_server.OrderedSet.Order.{IsSorted}
use discovery_server.OrderedSet.Lookup.{find-emplace}
use discovery_server.Outcome.{done, aborted}
use discovery_server.Item.{Guid, TimePoint}
use discovery_server.Manager.{Manager, Pointer, entry_guid}
use discovery_server.Manager.Maps.{get_participant}
use discovery_server.Manager.Created.{enter_info, get_pubsub, no_info, pubsub_of}
use discovery_server.Dds.{Dds}
use discovery_server.Events.Kinds.{Kind}
use discovery_server.Events.{
  participant_creation, endpoint_creation, DelayedParticipantCreation, DelayedEndpointCreation,
  Process, event_pointer, through, event_at, set_created_guid, created_guid,
}
use discovery_server.Events.Endpoints.{
  participant_for, create_for, create_behind, create_delayed_endpoint,
}
use discovery_server.Events.Run.{execute, run_events, run_events_step, run_events_aborts}
use discovery_server.Events.Lives.{
  IsOrderedManager, IsNew, get_participant-with_participant, entity-with_participant,
  with_participant-IsSorted,
}
use discovery_server.Events.Linked.{event_at-through, created, create_participant_new, info_of}

-- The entry that a search makes hides nobody that was found before.
pub get_participant-enter_info :
    (k id : Guid) (m : Manager)
    → IsSorted entry_guid m.entity_map
    → get_participant id m ≡ none
    → get_participant k (enter_info id m) ≡ get_participant k m
unfolding get_participant enter_info
get_participant-enter_info k id m s e =
    ground (arith, e, find-emplace entry_guid k 0 (id, no_info) m.entity_map s)

module _ (d : Dds) (ndebug : Bool) (kind : Kind) (c : DelayedEndpointCreation) (r : Process d) where
  pub create_without :
      participant_for d
          (get_participant c.participant_guid r.manager)
          c
          r.events
          (enter_info c.participant_guid r.manager)
        ≡ none
      → create_delayed_endpoint d ndebug kind c r
        ≡ done (record r { manager = enter_info c.participant_guid r.manager })
  unfolding create_delayed_endpoint get_pubsub create_for
  create_without e =
      ap
        (λ x.
          create_for d ndebug kind c x (get_pubsub kind c.participant_guid r.manager).0
            (enter_info c.participant_guid r.manager) r)
        e

  create_behind_null :
      (part : Pointer)
      → participant_for d
          (get_participant c.participant_guid r.manager)
          c
          r.events
          (enter_info c.participant_guid r.manager)
        ≡ some part
      → find entry_guid c.participant_guid r.manager.entity_map ≡ none
      → create_delayed_endpoint d ndebug kind c r ≡ aborted
  unfolding create_delayed_endpoint get_pubsub create_for create_behind
  create_behind_null part e f =
      ap
        (λ x.
          create_for d ndebug kind c x (get_pubsub kind c.participant_guid r.manager).0
            (enter_info c.participant_guid r.manager) r)
        e
      ∙ ap (λ x. create_behind d ndebug kind c x part (enter_info c.participant_guid r.manager) r)
          (ap (λ x. bind_option x (λ e. pubsub_of kind e.1)) f)

module _ (d : Dds) (ndebug : Bool) (c : DelayedParticipantCreation d.Qos)
    (ec : DelayedEndpointCreation) (kind : Kind) (r : Process d) (self q p : Pointer)
    (o : IsOrderedManager r.manager) (s : IsSorted event_pointer r.events)
    (here : event_at self r.events ≡ some (participant_creation c))
    (there : event_at q r.events ≡ some (endpoint_creation kind ec)) (e : c.removal_event ≡ none)
    (owner : ec.owner_event ≡ some self) (ne : (self == q) ≡ false) where
  endpoint_event_stays :
      event_at q (created d ndebug c r self p).events ≡ some (endpoint_creation kind ec)
  unfolding through
  endpoint_event_stays =
      rw (e, event_at-through self q (set_created_guid (d.guid p)) r.events s, ne) there

  owner_event_knows :
      bind_option (event_at self (created d ndebug c r self p).events) created_guid
      ≡ some (d.guid p)
  unfolding created_guid set_created_guid through
  owner_event_knows =
      rw
        (e, event_at-through self self (set_created_guid (d.guid p)) r.events s, ==_refl self, here)
        refl

  module _ (unknown_own : find entry_guid ec.participant_guid r.manager.entity_map ≡ none)
      (nobody : get_participant ec.participant_guid r.manager ≡ none)
      (other : (d.guid p == ec.participant_guid) ≡ false) where
    own_entity :
        find entry_guid ec.participant_guid (created d ndebug c r self p).manager.entity_map ≡ none
    own_entity =
        entity-with_participant (d.guid p) p (info_of d ndebug c r p) r.manager o refl
          ec.participant_guid c.role
        ∙ rw other unknown_own

    own_participant :
        get_participant ec.participant_guid (created d ndebug c r self p).manager ≡ none
    own_participant =
        get_participant-with_participant (d.guid p) p (info_of d ndebug c r p) r.manager o refl
          ec.participant_guid c.role
        ∙ rw other nobody

    found_by_owner :
        get_participant
          (d.guid p)
          (enter_info ec.participant_guid (created d ndebug c r self p).manager)
        ≡ some p
    found_by_owner =
        get_participant-enter_info (d.guid p) ec.participant_guid
          (created d ndebug c r self p).manager
          (with_participant-IsSorted (d.guid p) p (info_of d ndebug c r p) r.manager o refl
            (d.guid p) c.role)
          own_participant
        ∙ get_participant-with_participant (d.guid p) p (info_of d ndebug c r p) r.manager o refl
            (d.guid p) c.role
        ∙ rw (==_refl (d.guid p)) refl

    part_found :
        participant_for d
          (get_participant ec.participant_guid (created d ndebug c r self p).manager)
          ec
          (created d ndebug c r self p).events
          (enter_info ec.participant_guid (created d ndebug c r self p).manager)
        ≡ some p
    unfolding participant_for
    part_found = rw (own_participant, participant_for, owner, owner_event_knows) found_by_owner

    -- An endpoint that is associated with the event of a participant's creation, with a GUID of its
    -- own that the manager does not know and that is not the one which Fast DDS gives the
    -- participant: with maps and events in order, and the participant new, the run of the two
    -- events, the participant's first, ends in a call through a null pointer, since the endpoint
    -- takes its publisher or subscriber from its own GUID only.
    pub run_events_null :
        (has_file : Bool) (now now' : TimePoint)
        → (d.create_participant c.qos r.world).0 ≡ some p
        → IsNew (d.guid p) r.manager
        → run_events d ndebug has_file ((self, now) ∷ (q, now') ∷ []) r ≡ aborted
    unfolding execute
    run_events_null has_file now now' made n =
        run_events_step d ndebug has_file self now ((q, now') ∷ []) (participant_creation c) r
          (created d ndebug c r self p) here (create_participant_new d ndebug c r self p made n)
        ∙ run_events_aborts d ndebug has_file q now' [] (endpoint_creation kind ec)
            (created d ndebug c r self p) endpoint_event_stays
            (create_behind_null d ndebug kind ec (created d ndebug c r self p) p part_found
              own_entity)
