-- ===== src/Events/Tracked.antt =====
-- The participants of the manager in its maps by role and in its map of created entities,
-- src/DiscoveryServerManager.cpp.
use discovery_server.Prelude.{
  ℕ, ◌+◌, ◌≤◌, ◌≡◌, ◌∙◌, Option, none, some, arith, bind_option, Option-cases, inl, inr, List,
}
use discovery_server.OrderedSet.{find, emplace, modify}
use discovery_server.OrderedSet.Order.{IsSorted}
use discovery_server.OrderedSet.Lookup.{find-emplace, find-modify}
use discovery_server.Item.{Guid}
use discovery_server.Snapshot.{Snapshot}
use discovery_server.Manager.{Manager, Pointer, GuidMap, entry_guid, ParticipantCreatedEntityInfo}
use discovery_server.Manager.Maps.{value_at, first_of}
use discovery_server.Manager.Created.{no_info}
use discovery_server.Dds.{Dds}
use discovery_server.Outcome.{Outcome, done, aborted}
use discovery_server.Events.{Process}
use discovery_server.Events.Lives.{IsOrderedManager}
use discovery_server.Events.OrderedManager as Ordered

abbrev pub Entities : Type 0
Entities = GuidMap ParticipantCreatedEntityInfo

-- The participant under a GUID in the map of created entities, and in the three maps by role.
abbrev pub created_in : Guid → Entities → Option Pointer
created_in id es = bind_option (find entry_guid id es) (λ e. e.1.participant)

abbrev pub role_of : Guid → Manager → Option Pointer
role_of id m =
    first_of (value_at id m.clients) (first_of (value_at id m.servers) (value_at id m.simples))

abbrev pub held : Option Pointer → ℕ
held none = 0
held (some p) = 1

-- In a manager in order, both have the same participants, each under its own GUID and in one role.
pub record IsTracked (d : Dds) (m : Manager) : Type 0 where
  pub ordered : IsOrderedManager m
  pub created : (id : Guid) → created_in id m.entity_map ≡ role_of id m
  pub one_role :
      (id : Guid)
      → held (value_at id m.clients) + held (value_at id m.servers) + held (value_at id m.simples)
        ≤ 1
  pub own_guid : (id : Guid) {p : Pointer} → role_of id m ≡ some p → d.guid p ≡ id

pub created_in-enter :
    (k id : Guid) (es : Entities)
    → IsSorted entry_guid es
    → created_in k (emplace entry_guid (id, no_info) es) ≡ created_in k es
created_in-enter k id es s = ground (arith, find-emplace entry_guid k 0 (id, no_info) es s)

pub created_in-modify :
    (k id : Guid) (f : Guid × ParticipantCreatedEntityInfo → Guid × ParticipantCreatedEntityInfo)
    (es : Entities)
    → ((e : Guid × ParticipantCreatedEntityInfo) → (f e).0 ≡ e.0)
    → ((e : Guid × ParticipantCreatedEntityInfo) → (f e).1.participant ≡ e.1.participant)
    → IsSorted entry_guid es
    → created_in k (modify entry_guid id f es) ≡ created_in k es
created_in-modify k id f es same keeps s = elim (Option-cases (find entry_guid k es)) [
  | inl e ↦ ground (arith, find-modify entry_guid k id 0 f es same s, e)
  | inr (x, e) ↦ ground (arith, find-modify entry_guid k id 0 f es same s, e, keeps x)
]

module _ (d : Dds) (m : Manager) (o : IsTracked d m) where
  -- Changes of the map of created entities, of the readers and of the writers.
  pub with_entities :
      (es : Entities)
      → IsSorted entry_guid es
      → ((k : Guid) → created_in k es ≡ created_in k m.entity_map)
      → IsTracked d (record m { entity_map = es })
  with_entities es s same = record {
    ordered = Ordered.with_entities m es o.ordered s;
    created = λ k. same k ∙ o.created k;
    one_role = o.one_role;
    own_guid = o.own_guid;
  }

  pub with_readers :
      (es : GuidMap Pointer) → IsSorted entry_guid es → IsTracked d (record m { data_readers = es })
  with_readers es s = record {
    ordered = Ordered.with_readers m es o.ordered s;
    created = o.created;
    one_role = o.one_role;
    own_guid = o.own_guid;
  }

  pub with_writers :
      (es : GuidMap Pointer) → IsSorted entry_guid es → IsTracked d (record m { data_writers = es })
  with_writers es s = record {
    ordered = Ordered.with_writers m es o.ordered s;
    created = o.created;
    one_role = o.one_role;
    own_guid = o.own_guid;
  }

  pub with_snapshots : (shs : List Snapshot) → IsTracked d (record m { snapshots = shs })
  with_snapshots shs = record {
    ordered = Ordered.with_snapshots m shs o.ordered;
    created = o.created;
    one_role = o.one_role;
    own_guid = o.own_guid;
  }

-- What a step leaves, if the process goes on, is tracked.
abbrev pub TrackedAfter : (d : Dds) → Outcome (Process d) → Type 0
TrackedAfter d (done r) = IsTracked d r.manager
TrackedAfter d aborted = Unit {0}
