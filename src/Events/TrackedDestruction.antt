-- ===== src/Events/TrackedDestruction.antt =====
-- The destruction of a participant keeps the participants of the manager, src/LateJoiner.cpp.
use discovery_server.Prelude.{
  ◌+◌, ◌≤◌, ◌≡◌, ◌∙◌, sym, Bool, none, some, arith, ◌==◌, if◌then◌else◌, Option-cases, Bool-cases,
  inl, inr,
}
use discovery_server.OrderedSet.{erase}
use discovery_server.OrderedSet.Order.{IsSorted, erase-Above}
use discovery_server.OrderedSet.Lookup.{find-erase}
use discovery_server.Item.{Guid}
use discovery_server.Manager.{Manager, Pointer, GuidMap, entry_guid}
use discovery_server.Manager.Maps.{value_at, take_out, remove_participant}
use discovery_server.Manager.Created.{delete_participant}
use discovery_server.Dds.{Dds}
use discovery_server.Events.{Role, as_server, as_client, as_simple, Process}
use discovery_server.Events.Participants.{destroy_participant}
use discovery_server.Events.Lives.{put_role}
use discovery_server.Events.OrderedManager.{
  put_role-IsOrderedManager, erase_role-IsOrderedManager, cleared, cleared-IsOrderedManager,
}
use discovery_server.Events.OrderedManager as Ordered
use discovery_server.Events.Tracked.{IsTracked, role_of, held}

module _ (d : Dds) where
  cleared-IsTracked :
      (id : Guid) (m : Manager) → IsTracked d m → IsTracked d (cleared d.prefix id m)
  cleared-IsTracked id m o = record {
    ordered = cleared-IsOrderedManager d.prefix id m o.ordered;
    created = o.created;
    one_role = o.one_role;
    own_guid = o.own_guid;
  }

  abbrev in_role : Role → Manager → GuidMap Pointer
  in_role as_server m = m.servers
  in_role as_client m = m.clients
  in_role as_simple m = m.simples

  -- The manager behind removeParticipant and deleteParticipant of the participant of a role.
  module _ (id : Guid) (p : Pointer) (m : Manager) (o : IsTracked d m) where
    abbrev erased : Role → Manager
    erased role = record (put_role role (erase entry_guid id) m) {
      entity_map = erase entry_guid (d.guid p) m.entity_map;
    }

    value_at-erase :
        (k : Guid) (es : GuidMap Pointer)
        → IsSorted entry_guid es
        → value_at k (erase entry_guid id es) ≡ (if id == k then none else value_at k es)
    unfolding value_at
    value_at-erase k es s = ground (arith, find-erase entry_guid k id 0 es s)

    role_of-erase :
        (role : Role) (k : Guid)
        → value_at id (in_role role m) ≡ some p
        → role_of k (erased role) ≡ (if id == k then none else role_of k m)
    role_of-erase as_server k e =
        ground
          (arith, e, o.one_role id, value_at-erase k m.servers o.ordered.registry.servers_sorted)
    role_of-erase as_client k e =
        ground
          (arith, e, o.one_role id, value_at-erase k m.clients o.ordered.registry.clients_sorted)
    role_of-erase as_simple k e =
        ground
          (arith, e, o.one_role id, value_at-erase k m.simples o.ordered.registry.simples_sorted)

    role_of-in_role : (role : Role) → value_at id (in_role role m) ≡ some p → role_of id m ≡ some p
    role_of-in_role as_server e = ground (arith, e, o.one_role id)
    role_of-in_role as_client e = ground (arith, e)
    role_of-in_role as_simple e = ground (arith, e, o.one_role id)

    one_role-erase :
        (role : Role) (k : Guid)
        → held (value_at k (erased role).clients)
            + held (value_at k (erased role).servers)
            + held (value_at k (erased role).simples)
          ≤ 1
    one_role-erase as_server k =
        ground (arith, o.one_role k, value_at-erase k m.servers o.ordered.registry.servers_sorted)
    one_role-erase as_client k =
        ground (arith, o.one_role k, value_at-erase k m.clients o.ordered.registry.clients_sorted)
    one_role-erase as_simple k =
        ground (arith, o.one_role k, value_at-erase k m.simples o.ordered.registry.simples_sorted)

    erased-IsTracked :
        (role : Role) → value_at id (in_role role m) ≡ some p → IsTracked d (erased role)
    erased-IsTracked role e = record {
      ordered =
          Ordered.with_entities (put_role role (erase entry_guid id) m) _
            (erase_role-IsOrderedManager role id m o.ordered)
            (erase-Above entry_guid 0 (d.guid p) m.entity_map o.ordered.entities);
      created = λ k. ground (
        arith,
        o.created k,
        role_of-erase role k e,
        o.own_guid id (role_of-in_role role e),
        find-erase entry_guid k (d.guid p) 0 m.entity_map o.ordered.entities,
      );
      one_role = one_role-erase role;
      own_guid = own_guid_erased role e;
    }
      where
        clash : {q : Pointer} → none ≡ some q → ⊥
        clash e = cc

        own_guid_erased :
            (role : Role)
            → value_at id (in_role role m) ≡ some p
            → (k : Guid) {q : Pointer} → role_of k (erased role) ≡ some q
            → d.guid q ≡ k
        own_guid_erased role e k {q} f = elim (Bool-cases (id == k)) [
          | inl same ↦ absurd (clash (sym (rw same at (role_of-erase role k e)) ∙ f))
          | inr other ↦ o.own_guid k (ground (arith, role_of-erase role k e, other, f))
        ]

  -- The three maps are asked in their order.
  destroyed-IsTracked :
      (id : Guid) (w : d.World) (m : Manager)
      → IsTracked d m
      → IsTracked d (delete_participant d (take_out id m).0 w (take_out id m).1).1.1
  unfolding take_out delete_participant
  destroyed-IsTracked id w m o = elim (Option-cases (value_at id m.clients)) [
    | inr (p, e) ↦ rw (e, take_out) (erased-IsTracked id p m o as_client e)
    | inl e ↦ elim (Option-cases (value_at id m.servers)) [
      | inr (p, f) ↦ rw (e, f, take_out) (erased-IsTracked id p m o as_server f)
      | inl f ↦ elim (Option-cases (value_at id m.simples)) [
        | inr (p, g) ↦ rw (e, f, g, take_out) (erased-IsTracked id p m o as_simple g)
        | inl g ↦ rw (e, f, g, take_out) o
      ]
    ]
  ]

  module _ (ndebug : Bool) where
    pub destroy_participant-IsTracked :
        (id : Guid) (r : Process d)
        → IsTracked d r.manager
        → IsTracked d (destroy_participant d ndebug id r).manager
    unfolding destroy_participant remove_participant
    destroy_participant-IsTracked id r o =
        destroyed-IsTracked id r.world _ (cleared-IsTracked id r.manager o)
