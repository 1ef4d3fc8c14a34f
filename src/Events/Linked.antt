-- ===== src/Events/Linked.antt =====
-- A participant that one event creates and a linked event destroys, src/LateJoiner.cpp.
use discovery_server.Prelude.{
  ◌≡◌, refl, sym, ap, subst, ◌∙◌, Bool, false, none, some, [], ◌∷◌, arith, ◌==◌, if◌then◌else◌,
  map_option, ==_refl,
}
use discovery_server.OrderedSet.Order.{IsSorted, modify-Above}
use discovery_server.OrderedSet.Lookup.{find-modify, find-erase}
use discovery_server.Outcome.{done}
use discovery_server.Item.{Guid, TimePoint}
use discovery_server.Manager.{Manager, Pointer, entry_guid, ParticipantCreatedEntityInfo}
use discovery_server.Manager.Maps.{
  assign, value_at, get_participant, add_server, add_client, add_simple, assign_new,
}
use discovery_server.Manager.Created.{delete_participant}
use discovery_server.Dds.{Dds}
use discovery_server.Events.{
  Role, as_server, as_client, as_simple, Event, participant_creation, participant_destruction,
  DelayedParticipantCreation, Process, Store, event_pointer, through, event_at, unknown,
  set_participant_guid, set_created_guid,
}
use discovery_server.Events.Participants.{
  add_in_role, new_info, enter_participant, create_participant, destroy_participant,
}
use discovery_server.Events.Run.{execute, run_events, run_events_step}
use discovery_server.Events.Lives.{
  IsOrderedManager, IsNew, put_role, with_participant, entity-with_participant,
  with_participant-IsSorted,
}
use discovery_server.Events.TakenOut.{taken_out, without, entity_map-without, maps-without}

module _ {Q : Type 0} (q k : Pointer) (f : Event Q → Event Q) (es : Store Q)
    (s : IsSorted event_pointer es) where
  pub event_at-through :
      event_at k (through (some q) f es)
      ≡ (if q == k then map_option f (event_at k es) else event_at k es)
  unfolding event_at through
  event_at-through =
      ground (arith, find-modify event_pointer k q 0 (λ e. (e.0, f e.1)) es (λ e. refl) s)

  pub through-IsSorted : IsSorted event_pointer (through (some q) f es)
  unfolding through
  through-IsSorted = modify-Above event_pointer 0 q (λ e. (e.0, f e.1)) es (λ e. refl) s

-- No assertion fails where the participant is new.
add_in_role_new :
    (ndebug : Bool) (role : Role) (id : Guid) (p : Pointer) (m : Manager)
    → IsNew id m
    → add_in_role ndebug role id p m ≡ done (put_role role (assign id p) m)
unfolding add_in_role add_server add_client add_simple assign_new value_at
add_in_role_new ndebug as_server id p m n = ground (arith, n.no_server)
add_in_role_new ndebug as_client id p m n = ground (arith, n.no_client)
add_in_role_new ndebug as_simple id p m n = ground (arith, n.no_simple)

module _ (d : Dds) (ndebug : Bool) (role : Role) (id : Guid) (p : Pointer)
    (info : ParticipantCreatedEntityInfo) (w : d.World) (m : Manager) (o : IsOrderedManager m)
    (n : IsNew id m) (h : info.participant ≡ some p) where
  -- The manager behind deleteParticipant, as far as getParticipant looks.
  deleted_participant :
      (k : Guid)
      → d.guid p ≡ id
      → get_participant k
          (delete_participant d (some p) w (without d.prefix id p info m o n role)).1.1
        ≡ (if id == k then none else get_participant k m)
  unfolding get_participant delete_participant
  deleted_participant k e =
      let f = maps-without d.prefix id p info m o n role k in
      ground (
        arith,
        e,
        f.0,
        f.1,
        f.2,
        entity_map-without d.prefix id p info m o n role,
        find-erase entry_guid k id 0 (without d.prefix id p info m o n role).entity_map (
            subst (IsSorted entry_guid) (sym (entity_map-without d.prefix id p info m o n role))
              (with_participant-IsSorted id p info m o h k role)),
        entity-with_participant id p info m o h k role,
      )

module _ (d : Dds) (ndebug : Bool) (c : DelayedParticipantCreation d.Qos) (r : Process d) where
  abbrev pub world0 : d.World
  world0 = (d.create_participant c.qos r.world).1

  abbrev pub info_of : Pointer → ParticipantCreatedEntityInfo
  info_of p =
      let pub' = d.create_publisher p world0 in new_info p pub'.0 (d.create_subscriber p pub'.1).0

  -- The process behind the creation of a participant.
  abbrev pub created : Pointer → Pointer → Process d
  created self p = record r {
    world = (d.create_subscriber p (d.create_publisher p world0).1).1;
    manager = with_participant c.role (d.guid p) p (info_of p) r.manager;
    events =
        through c.removal_event (set_participant_guid (d.guid p))
          (through (some self) (set_created_guid (d.guid p)) r.events);
  }

  pub create_participant_new :
      (self p : Pointer)
      → (d.create_participant c.qos r.world).0 ≡ some p
      → IsNew (d.guid p) r.manager
      → create_participant d ndebug self c r ≡ done (created self p)
  unfolding create_participant enter_participant
  create_participant_new self p e n =
      rw (e, enter_participant, add_in_role_new ndebug c.role (d.guid p) p r.manager n) refl

  -- The linked event learns the GUID of the participant.
  linked_event :
      (self q p : Pointer) (t : TimePoint) (old : Guid)
      → IsSorted event_pointer r.events
      → c.removal_event ≡ some q
      → (self == q) ≡ false
      → (d.guid p == unknown) ≡ false
      → event_at q r.events ≡ some (participant_destruction t old)
      → event_at q (created self p).events ≡ some (participant_destruction t (d.guid p))
  unfolding set_participant_guid
  linked_event self q p t old s e ne known there =
      rw
        (
          e,
          event_at-through q q (set_participant_guid (d.guid p))
              (through (some self) (set_created_guid (d.guid p)) r.events)
              (through-IsSorted self q (set_created_guid (d.guid p)) r.events s),
          ==_refl q,
          event_at-through self q (set_created_guid (d.guid p)) r.events s,
          ne,
          there,
          known,
        )
        refl

  -- A participant of a new GUID, which is not unknown, whose creation is linked to the event of its
  -- destruction: with the maps of the manager and the store of the events in order, the two events
  -- run to their end one after the other, and then getParticipant finds no participant of that GUID,
  -- and for every other GUID what it found before. This holds whatever GUID the second event had.
  pub run_events-linked :
      (has_file : Bool) (now now' t : TimePoint) (self q p : Pointer) (old k : Guid)
      → IsOrderedManager r.manager
      → IsSorted event_pointer r.events
      → event_at self r.events ≡ some (participant_creation c)
      → event_at q r.events ≡ some (participant_destruction t old)
      → c.removal_event ≡ some q
      → (self == q) ≡ false
      → (d.create_participant c.qos r.world).0 ≡ some p
      → (d.guid p == unknown) ≡ false
      → IsNew (d.guid p) r.manager
      → (r' : Process d) × (run_events d ndebug has_file ((self, now) ∷ (q, now') ∷ []) r ≡ done r')
        × (get_participant k r'.manager
            ≡ (if d.guid p == k then none else get_participant k r.manager))
  unfolding run_events execute destroy_participant
  run_events-linked has_file now now' t self q p old k o s here there e ne made known n = (
    destroy_participant d ndebug (d.guid p) (created self p),
    run_events_step d ndebug has_file self now ((q, now') ∷ []) (participant_creation c) r
          (created self p) here (create_participant_new self p made n)
        ∙ run_events_step d ndebug has_file q now' [] (participant_destruction t (d.guid p))
            (created self p) (destroy_participant d ndebug (d.guid p) (created self p))
            (linked_event self q p t old s e ne known there) refl,
    ap
          (λ x.
            get_participant k
              (delete_participant d x (created self p).world
                (without d.prefix (d.guid p) p (info_of p) r.manager o n c.role)).1.1)
          (taken_out d.prefix (d.guid p) p (info_of p) r.manager o n c.role)
        ∙ (deleted_participant d ndebug c.role (d.guid p) p (info_of p) (created self p).world
            r.manager o n refl k refl),
  )
