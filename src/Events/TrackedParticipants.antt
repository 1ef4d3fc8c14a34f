-- ===== src/Events/TrackedParticipants.antt =====
-- The creation of a participant keeps the participants of the manager, src/LateJoiner.cpp.
use discovery_server.Prelude.{
  ◌+◌, ◌≤◌, ◌≡◌, sym, refl, Bool, Option, none, some, arith, ◌==◌, if◌then◌else◌, Bool-cases, inl,
  inr,
}
use discovery_server.Outcome.{Outcome-cases}
use discovery_server.Item.{Guid}
use discovery_server.Manager.{Manager, Pointer, ParticipantCreatedEntityInfo}
use discovery_server.Manager.Maps.{assign, value_at}
use discovery_server.Manager.Registry.{value_at-assign}
use discovery_server.Manager.Entities.{set_participant_info}
use discovery_server.Dds.{Dds}
use discovery_server.Events.{
  Role, as_server, as_client, as_simple, DelayedParticipantCreation, Process,
}
use discovery_server.Events.Participants.{add_in_role, enter_participant}
use discovery_server.Events.Lives.{
  IsNew, put_role, add_in_role-done, assign-IsSorted, with_participant, entity-with_participant,
  with_participant-IsSorted,
}
use discovery_server.Events.OrderedManager.{
  put_role-IsOrderedManager, erase_role-IsOrderedManager, cleared, cleared-IsOrderedManager,
}
use discovery_server.Events.OrderedManager as Ordered
use discovery_server.Events.Tracked.{IsTracked, TrackedAfter, role_of, held}

module _ (d : Dds) where
  module _ (p : Pointer) (info : ParticipantCreatedEntityInfo) (m : Manager) (o : IsTracked d m)
      (h : info.participant ≡ some p) (n : IsNew (d.guid p) m) where
    role_of-put_role :
        (role : Role) (k : Guid)
        → role_of k (put_role role (assign (d.guid p) p) m)
          ≡ (if d.guid p == k then some p else role_of k m)
    role_of-put_role as_server k = ground (
      arith,
      n.no_client,
      value_at-assign k 0 (d.guid p) p m.servers o.ordered.registry.servers_sorted,
    )
    role_of-put_role as_client k =
        ground (arith, value_at-assign k 0 (d.guid p) p m.clients o.ordered.registry.clients_sorted)
    role_of-put_role as_simple k = ground (
      arith,
      n.no_client,
      n.no_server,
      value_at-assign k 0 (d.guid p) p m.simples o.ordered.registry.simples_sorted,
    )

    one_role-put_role :
        (role : Role) (k : Guid)
        → let m' = put_role role (assign (d.guid p) p) m in
          held (value_at k m'.clients) + held (value_at k m'.servers) + held (value_at k m'.simples)
          ≤ 1
    one_role-put_role as_server k = ground (
      arith,
      n.no_client,
      n.no_simple,
      o.one_role k,
      value_at-assign k 0 (d.guid p) p m.servers o.ordered.registry.servers_sorted,
    )
    one_role-put_role as_client k = ground (
      arith,
      n.no_server,
      n.no_simple,
      o.one_role k,
      value_at-assign k 0 (d.guid p) p m.clients o.ordered.registry.clients_sorted,
    )
    one_role-put_role as_simple k = ground (
      arith,
      n.no_client,
      n.no_server,
      o.one_role k,
      value_at-assign k 0 (d.guid p) p m.simples o.ordered.registry.simples_sorted,
    )

    own_guid_put :
        (role : Role) (k : Guid) {q : Pointer}
        → role_of k (put_role role (assign (d.guid p) p) m) ≡ some q
        → d.guid q ≡ k
    own_guid_put role k {q} e = elim (Bool-cases (d.guid p == k)) [
      | inl same ↦ grind (arith, role_of-put_role role k, same, e)
      | inr other ↦ o.own_guid k (ground (arith, role_of-put_role role k, other, e))
    ]

    with_participant-IsTracked :
        (role : Role) → IsTracked d (with_participant role (d.guid p) p info m)
    unfolding set_participant_info
    with_participant-IsTracked role = record {
      ordered =
          Ordered.with_entities (put_role role (assign (d.guid p) p) m) _
            (put_role-IsOrderedManager role (assign (d.guid p) p) m (assign-IsSorted (d.guid p) p)
              o.ordered)
            (with_participant-IsSorted (d.guid p) p info m o.ordered h 0 role);
      created = λ k. ground (
        arith,
        h,
        o.created k,
        entity-with_participant (d.guid p) p info m o.ordered h k role,
        role_of-put_role role k,
      );
      one_role = one_role-put_role role;
      own_guid = own_guid_put role;
    }

  -- The GUID of the participant, if it was created, is new to the maps by role.
  abbrev pub IsNewIn : Option Pointer → Manager → Type 0
  IsNewIn none m = Unit {0}
  IsNewIn (some p) m = IsNew (d.guid p) m

  module _ (ndebug : Bool) where
    pub enter_participant-IsTracked :
        (self : Pointer) (c : DelayedParticipantCreation d.Qos) (p : Option Pointer) (w : d.World)
        (r : Process d)
        → IsTracked d r.manager
        → IsNewIn p r.manager
        → TrackedAfter d (enter_participant d ndebug self c p w r)
    unfolding enter_participant
    enter_participant-IsTracked self c none w r o n = tt
    enter_participant-IsTracked self c (some p) w r o n =
        elim (Outcome-cases (add_in_role ndebug c.role (d.guid p) p r.manager)) [
          | inr h ↦ rw h tt
          | inl (m, h) ↦
              rw (h, sym (add_in_role-done ndebug c.role (d.guid p) p r.manager h))
                (with_participant-IsTracked p _ r.manager o refl n c.role)
        ]
