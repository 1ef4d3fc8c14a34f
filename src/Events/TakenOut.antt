-- ===== src/Events/TakenOut.antt =====
-- removeParticipant for a participant that an event has created, src/DiscoveryServerManager.cpp.
use discovery_server.Prelude.{◌≡◌, none, some, arith, ◌==◌, if◌then◌else◌}
use discovery_server.Item.{Guid}
use discovery_server.Manager.{Manager, Pointer, ParticipantCreatedEntityInfo}
use discovery_server.Manager.Maps.{assign, value_at, remove_participant, take_out}
use discovery_server.Manager.Entities.{set_participant_info}
use discovery_server.Manager.Registry.{value_at-assign, value_at-erase}
use discovery_server.Events.{Role, as_server, as_client, as_simple}
use discovery_server.Events.Lives.{IsOrderedManager, IsNew, with_participant, assign-IsSorted}

module _ (prefix : Guid → Guid) (id : Guid) (p : Pointer) (info : ParticipantCreatedEntityInfo)
    (m : Manager) (o : IsOrderedManager m) (n : IsNew id m) where
  -- removeParticipant takes a new participant out of the map that it was put in.
  pub taken_out :
      (role : Role) → (remove_participant prefix id (with_participant role id p info m)).0 ≡ some p
  unfolding remove_participant take_out set_participant_info
  taken_out as_server =
      ground (arith, n.no_client, value_at-assign id 0 id p m.servers o.registry.servers_sorted)
  taken_out as_client =
      ground (arith, value_at-assign id 0 id p m.clients o.registry.clients_sorted)
  taken_out as_simple = ground (
    arith,
    n.no_client,
    n.no_server,
    value_at-assign id 0 id p m.simples o.registry.simples_sorted,
  )

  abbrev pub without : Role → Manager
  without role = (remove_participant prefix id (with_participant role id p info m)).1

  pub entity_map-without :
      (role : Role) → (without role).entity_map ≡ (with_participant role id p info m).entity_map
  unfolding remove_participant take_out set_participant_info
  entity_map-without as_server =
      ground (arith, n.no_client, value_at-assign id 0 id p m.servers o.registry.servers_sorted)
  entity_map-without as_client =
      ground (arith, value_at-assign id 0 id p m.clients o.registry.clients_sorted)
  entity_map-without as_simple = ground (
    arith,
    n.no_client,
    n.no_server,
    value_at-assign id 0 id p m.simples o.registry.simples_sorted,
  )

  pub maps-without :
      (role : Role) (k : Guid)
      → (value_at k (without role).clients ≡ (if id == k then none else value_at k m.clients))
        × (value_at k (without role).servers ≡ (if id == k then none else value_at k m.servers))
        × (value_at k (without role).simples ≡ (if id == k then none else value_at k m.simples))
  unfolding remove_participant take_out set_participant_info
  maps-without as_server k = (
    ground (
      arith,
      n.no_client,
      n.no_server,
      n.no_simple,
      value_at-assign id 0 id p m.servers o.registry.servers_sorted,
      value_at-assign k 0 id p m.servers o.registry.servers_sorted,
      value_at-erase k id (assign id p m.servers)
          (assign-IsSorted id p m.servers o.registry.servers_sorted),
    ),
    ground (
      arith,
      n.no_client,
      n.no_server,
      n.no_simple,
      value_at-assign id 0 id p m.servers o.registry.servers_sorted,
      value_at-assign k 0 id p m.servers o.registry.servers_sorted,
      value_at-erase k id (assign id p m.servers)
          (assign-IsSorted id p m.servers o.registry.servers_sorted),
    ),
    ground (
      arith,
      n.no_client,
      n.no_server,
      n.no_simple,
      value_at-assign id 0 id p m.servers o.registry.servers_sorted,
      value_at-assign k 0 id p m.servers o.registry.servers_sorted,
      value_at-erase k id (assign id p m.servers)
          (assign-IsSorted id p m.servers o.registry.servers_sorted),
    ),
  )
  maps-without as_client k = (
    ground (
      arith,
      n.no_client,
      n.no_server,
      n.no_simple,
      value_at-assign id 0 id p m.clients o.registry.clients_sorted,
      value_at-assign k 0 id p m.clients o.registry.clients_sorted,
      value_at-erase k id (assign id p m.clients)
          (assign-IsSorted id p m.clients o.registry.clients_sorted),
    ),
    ground (
      arith,
      n.no_client,
      n.no_server,
      n.no_simple,
      value_at-assign id 0 id p m.clients o.registry.clients_sorted,
      value_at-assign k 0 id p m.clients o.registry.clients_sorted,
      value_at-erase k id (assign id p m.clients)
          (assign-IsSorted id p m.clients o.registry.clients_sorted),
    ),
    ground (
      arith,
      n.no_client,
      n.no_server,
      n.no_simple,
      value_at-assign id 0 id p m.clients o.registry.clients_sorted,
      value_at-assign k 0 id p m.clients o.registry.clients_sorted,
      value_at-erase k id (assign id p m.clients)
          (assign-IsSorted id p m.clients o.registry.clients_sorted),
    ),
  )
  maps-without as_simple k = (
    ground (
      arith,
      n.no_client,
      n.no_server,
      n.no_simple,
      value_at-assign id 0 id p m.simples o.registry.simples_sorted,
      value_at-assign k 0 id p m.simples o.registry.simples_sorted,
      value_at-erase k id (assign id p m.simples)
          (assign-IsSorted id p m.simples o.registry.simples_sorted),
    ),
    ground (
      arith,
      n.no_client,
      n.no_server,
      n.no_simple,
      value_at-assign id 0 id p m.simples o.registry.simples_sorted,
      value_at-assign k 0 id p m.simples o.registry.simples_sorted,
      value_at-erase k id (assign id p m.simples)
          (assign-IsSorted id p m.simples o.registry.simples_sorted),
    ),
    ground (
      arith,
      n.no_client,
      n.no_server,
      n.no_simple,
      value_at-assign id 0 id p m.simples o.registry.simples_sorted,
      value_at-assign k 0 id p m.simples o.registry.simples_sorted,
      value_at-erase k id (assign id p m.simples)
          (assign-IsSorted id p m.simples o.registry.simples_sorted),
    ),
  )
