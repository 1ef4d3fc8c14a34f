-- ===== src/Events/Lives.antt =====
-- The life of a participant whose creation and destruction are events, src/LateJoiner.cpp.
use discovery_server.Prelude.{◌≡◌, Bool, none, some, [], ◌∷◌, arith, ◌==◌, if◌then◌else◌, suc, ◌≤◌}
use discovery_server.OrderedSet.{find, emplace, modify}
use discovery_server.OrderedSet.Order.{IsSorted, Above}
use discovery_server.OrderedSet.Lookup.{find_below}
use discovery_server.Outcome.{done}
use discovery_server.Item.{Guid}
use discovery_server.Manager.{Manager, Pointer, GuidMap, entry_guid, ParticipantCreatedEntityInfo}
use discovery_server.Manager.Maps.{
  assign, value_at, get_participant, add_server, add_client, add_simple,
}
use discovery_server.Manager.Entities.{set_participant_info}
use discovery_server.Manager.Registry.{IsRegistry, value_at-assign, assign_new-done}
use discovery_server.Events.{Role, as_server, as_client, as_simple}
use discovery_server.Events.Participants.{add_in_role}

pub find-assign :
    {A : Type 0} (k b id : Guid) (a : A) (m : GuidMap A)
    → Above entry_guid b m
    → find entry_guid k (assign id a m) ≡ (if id == k then some (id, a) else find entry_guid k m)
unfolding assign find emplace modify
find-assign k b id a [] s = ground arith
find-assign k b id a (e ∷ es) s =
    ground (arith, find-assign k (suc e.0) id a es s.1, find_below entry_guid k (suc e.0) es)

assign-Above :
    {A : Type 0} (b id : Guid) (a : A) (m : GuidMap A)
    → b ≤ id
    → Above entry_guid b m
    → Above entry_guid b (assign id a m)
unfolding assign emplace modify
assign-Above b id a [] h s = ground (arith, h)
assign-Above b id a (e ∷ es) h s = ground (arith, h, assign-Above (suc e.0) id a es)

pub assign-IsSorted :
    {A : Type 0} (id : Guid) (a : A) (m : GuidMap A)
    → IsSorted entry_guid m
    → IsSorted entry_guid (assign id a m)
assign-IsSorted id a m s = assign-Above 0 id a m (omega arith) s

abbrev pub put_role : Role → (GuidMap Pointer → GuidMap Pointer) → Manager → Manager
put_role as_server f m = record m { servers = f m.servers }
put_role as_client f m = record m { clients = f m.clients }
put_role as_simple f m = record m { simples = f m.simples }

pub add_in_role-done :
    (ndebug : Bool) (role : Role) (id : Guid) (p : Pointer) (m : Manager) {m' : Manager}
    → add_in_role ndebug role id p m ≡ done m'
    → put_role role (assign id p) m ≡ m'
unfolding add_in_role add_server add_client add_simple
add_in_role-done ndebug as_server id p m e =
    assign_new-done ndebug id p m.servers (λ es. record m { servers = es }) e
add_in_role-done ndebug as_client id p m e =
    assign_new-done ndebug id p m.clients (λ es. record m { clients = es }) e
add_in_role-done ndebug as_simple id p m e =
    assign_new-done ndebug id p m.simples (λ es. record m { simples = es }) e

-- The three maps of participants and the map of created entities are in order.
pub record IsOrderedManager (m : Manager) : Type 0 where
  pub registry : IsRegistry m
  pub entities : IsSorted entry_guid m.entity_map

-- The manager behind the creation of a participant.
abbrev pub with_participant :
    Role → Guid → Pointer → ParticipantCreatedEntityInfo → Manager → Manager
with_participant role id p info m = set_participant_info id info (put_role role (assign id p) m)

-- No participant has the GUID.
pub record IsNew (id : Guid) (m : Manager) : Type 0 where
  pub no_client : value_at id m.clients ≡ none
  pub no_server : value_at id m.servers ≡ none
  pub no_simple : value_at id m.simples ≡ none

module _ (id : Guid) (p : Pointer) (info : ParticipantCreatedEntityInfo) (m : Manager)
    (o : IsOrderedManager m) (h : info.participant ≡ some p) (k : Guid) where
  pub entity-with_participant :
      (role : Role)
      → find entry_guid k (with_participant role id p info m).entity_map
        ≡ (if id == k then some (id, info) else find entry_guid k m.entity_map)
  unfolding set_participant_info
  entity-with_participant as_server = find-assign k 0 id info m.entity_map o.entities
  entity-with_participant as_client = find-assign k 0 id info m.entity_map o.entities
  entity-with_participant as_simple = find-assign k 0 id info m.entity_map o.entities

  pub with_participant-IsSorted :
      (role : Role) → IsSorted entry_guid (with_participant role id p info m).entity_map
  unfolding set_participant_info
  with_participant-IsSorted as_server = assign-IsSorted id info m.entity_map o.entities
  with_participant-IsSorted as_client = assign-IsSorted id info m.entity_map o.entities
  with_participant-IsSorted as_simple = assign-IsSorted id info m.entity_map o.entities

  pub get_participant-with_participant :
      (role : Role)
      → get_participant k (with_participant role id p info m)
        ≡ (if id == k then some p else get_participant k m)
  unfolding get_participant set_participant_info
  get_participant-with_participant as_server = ground (
    arith,
    h,
    entity-with_participant as_server,
    value_at-assign k 0 id p m.servers o.registry.servers_sorted,
  )
  get_participant-with_participant as_client = ground (
    arith,
    h,
    entity-with_participant as_client,
    value_at-assign k 0 id p m.clients o.registry.clients_sorted,
  )
  get_participant-with_participant as_simple = ground (
    arith,
    h,
    entity-with_participant as_simple,
    value_at-assign k 0 id p m.simples o.registry.simples_sorted,
  )
