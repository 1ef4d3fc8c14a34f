-- ===== src/Events/OrderedManager.antt =====
-- The maps of the manager stay in order under the members that events call,
-- src/DiscoveryServerManager.cpp.
use discovery_server.Prelude.{ℕ, suc, List, [], ◌∷◌, arith}
use discovery_server.OrderedSet.{erase}
use discovery_server.OrderedSet.Order.{IsSorted, Above, Above-mono, erase-Above}
use discovery_server.Item.{Guid}
use discovery_server.Snapshot.{Snapshot, database_guid}
use discovery_server.Database.{remove_database}
use discovery_server.Manager.{Manager, Pointer, GuidMap, entry_guid, ParticipantCreatedEntityInfo}
use discovery_server.Manager.Maps.{without_prefix}
use discovery_server.Events.{Role, as_server, as_client, as_simple}
use discovery_server.Events.Lives.{IsOrderedManager, put_role}

abbrev Entities : Type 0
Entities = GuidMap ParticipantCreatedEntityInfo

-- A change of the map of created entities only.
pub with_entities :
    (m : Manager) (es : Entities)
    → IsOrderedManager m
    → IsSorted entry_guid es
    → IsOrderedManager (record m { entity_map = es })
with_entities m es o s = record {
  registry = record {
    clients_sorted = o.registry.clients_sorted;
    servers_sorted = o.registry.servers_sorted;
    simples_sorted = o.registry.simples_sorted;
    writers_sorted = o.registry.writers_sorted;
    readers_sorted = o.registry.readers_sorted;
    state_sorted = o.registry.state_sorted;
  };
  entities = s;
}

pub put_role-IsOrderedManager :
    (role : Role) (f : GuidMap Pointer → GuidMap Pointer) (m : Manager)
    → ((es : GuidMap Pointer) → IsSorted entry_guid es → IsSorted entry_guid (f es))
    → IsOrderedManager m
    → IsOrderedManager (put_role role f m)
put_role-IsOrderedManager as_server f m h o = record {
  registry = record {
    clients_sorted = o.registry.clients_sorted;
    servers_sorted = h m.servers o.registry.servers_sorted;
    simples_sorted = o.registry.simples_sorted;
    writers_sorted = o.registry.writers_sorted;
    readers_sorted = o.registry.readers_sorted;
    state_sorted = o.registry.state_sorted;
  };
  entities = o.entities;
}
put_role-IsOrderedManager as_client f m h o = record {
  registry = record {
    clients_sorted = h m.clients o.registry.clients_sorted;
    servers_sorted = o.registry.servers_sorted;
    simples_sorted = o.registry.simples_sorted;
    writers_sorted = o.registry.writers_sorted;
    readers_sorted = o.registry.readers_sorted;
    state_sorted = o.registry.state_sorted;
  };
  entities = o.entities;
}
put_role-IsOrderedManager as_simple f m h o = record {
  registry = record {
    clients_sorted = o.registry.clients_sorted;
    servers_sorted = o.registry.servers_sorted;
    simples_sorted = h m.simples o.registry.simples_sorted;
    writers_sorted = o.registry.writers_sorted;
    readers_sorted = o.registry.readers_sorted;
    state_sorted = o.registry.state_sorted;
  };
  entities = o.entities;
}

-- Changes of the maps of readers and of writers.
pub with_readers :
    (m : Manager) (es : GuidMap Pointer)
    → IsOrderedManager m
    → IsSorted entry_guid es
    → IsOrderedManager (record m { data_readers = es })
with_readers m es o s = record {
  registry = record {
    clients_sorted = o.registry.clients_sorted;
    servers_sorted = o.registry.servers_sorted;
    simples_sorted = o.registry.simples_sorted;
    writers_sorted = o.registry.writers_sorted;
    readers_sorted = s;
    state_sorted = o.registry.state_sorted;
  };
  entities = o.entities;
}

pub with_writers :
    (m : Manager) (es : GuidMap Pointer)
    → IsOrderedManager m
    → IsSorted entry_guid es
    → IsOrderedManager (record m { data_writers = es })
with_writers m es o s = record {
  registry = record {
    clients_sorted = o.registry.clients_sorted;
    servers_sorted = o.registry.servers_sorted;
    simples_sorted = o.registry.simples_sorted;
    writers_sorted = s;
    readers_sorted = o.registry.readers_sorted;
    state_sorted = o.registry.state_sorted;
  };
  entities = o.entities;
}

without_prefix-Above :
    {A : Type 0} (prefix : Guid → ℕ) (id b : Guid) (es : GuidMap A)
    → Above entry_guid b es
    → Above entry_guid b (without_prefix prefix id es)
unfolding without_prefix
without_prefix-Above prefix id b [] s = tt
without_prefix-Above prefix id b (e ∷ es) s = ground (
  arith,
  without_prefix-Above prefix id (suc e.0) es,
  without_prefix-Above prefix id b es,
  Above-mono entry_guid b (suc e.0) es,
)

pub erase_role-IsOrderedManager :
    (role : Role) (id : Guid) (m : Manager)
    → IsOrderedManager m
    → IsOrderedManager (put_role role (erase entry_guid id) m)
erase_role-IsOrderedManager role id m o =
    put_role-IsOrderedManager role (erase entry_guid id) m (λ es. erase-Above entry_guid 0 id es) o

-- removeParticipant before it takes the participant out of its role.
abbrev pub cleared : (Guid → ℕ) → Guid → Manager → Manager
cleared prefix id m = record m {
  state = (remove_database id m.state).1;
  data_writers = without_prefix prefix id m.data_writers;
  data_readers = without_prefix prefix id m.data_readers;
}

pub cleared-IsOrderedManager :
    (prefix : Guid → ℕ) (id : Guid) (m : Manager)
    → IsOrderedManager m
    → IsOrderedManager (cleared prefix id m)
unfolding remove_database
cleared-IsOrderedManager prefix id m o = record {
  registry = record {
    clients_sorted = o.registry.clients_sorted;
    servers_sorted = o.registry.servers_sorted;
    simples_sorted = o.registry.simples_sorted;
    writers_sorted = without_prefix-Above prefix id 0 m.data_writers o.registry.writers_sorted;
    readers_sorted = without_prefix-Above prefix id 0 m.data_readers o.registry.readers_sorted;
    state_sorted = erase-Above database_guid 0 id m.state.databases o.registry.state_sorted;
  };
  entities = o.entities;
}

pub with_snapshots :
    (m : Manager) (shs : List Snapshot)
    → IsOrderedManager m
    → IsOrderedManager (record m { snapshots = shs })
with_snapshots m shs o = record {
  registry = record {
    clients_sorted = o.registry.clients_sorted;
    servers_sorted = o.registry.servers_sorted;
    simples_sorted = o.registry.simples_sorted;
    writers_sorted = o.registry.writers_sorted;
    readers_sorted = o.registry.readers_sorted;
    state_sorted = o.registry.state_sorted;
  };
  entities = o.entities;
}
