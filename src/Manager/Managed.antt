-- ===== src/Manager/Managed.antt =====
-- What takeSnapshot of src/DiscoveryServerManager.cpp records, with the participants that the manager
-- runs.
use discovery_server.Prelude.{
  ◌≡◌, refl, ap, ◌∙◌, Bool, ◌&&◌, ◌||◌, ◌++◌, some, List, [], ◌∷◌, String, arith, ◌==◌,
  if◌then◌else◌, is_none,
}
use discovery_server.OrderedSet.{find, emplace}
use discovery_server.OrderedSet.Order.{IsSorted}
use discovery_server.Item.{Guid, TimePoint}
use discovery_server.Snapshot.{ParticipantDiscoveryDatabase, database_guid, new_database}
use discovery_server.Manager.{
  GuidMap, Pointer, Manager, entry_guid, insert_all, managed, take_snapshot,
}
use discovery_server.Manager.Completion.{enter_all, enter_all_res, find-enter_all, has_key}

abbrev Databases : Type 0
Databases = List ParticipantDiscoveryDatabase

has_key-emplace :
    (k : Guid) (e : Guid × Pointer) (es : GuidMap Pointer)
    → has_key k (emplace entry_guid e es) ≡ (e.0 == k || has_key k es)
unfolding emplace
has_key-emplace k e [] = refl
has_key-emplace k e (x ∷ xs) = ground (arith, has_key-emplace k e xs)

has_key-insert_all :
    (k : Guid) (es m : GuidMap Pointer)
    → has_key k (insert_all es m) ≡ (has_key k es || has_key k m)
unfolding insert_all
has_key-insert_all k [] m = refl
has_key-insert_all k (e ∷ es) m =
    ground (arith, has_key-insert_all k es (emplace entry_guid e m), has_key-emplace k e m)

-- The manager runs a participant with the GUID.
abbrev pub runs : Guid → Manager → Bool
runs k m = has_key k m.simples || (has_key k m.clients || has_key k m.servers)

has_key-managed : (k : Guid) (m : Manager) → has_key k (managed m) ≡ runs k m
unfolding managed
has_key-managed k m =
    has_key-insert_all k m.simples (insert_all m.clients m.servers)
    ∙ ap (λ b. has_key k m.simples || b) (has_key-insert_all k m.clients m.servers)

-- With the databases in order, takeSnapshot returns for any participants of the manager. All that
-- it changes is that the snapshots get one more at their end, with the times, the texts and the
-- flags given. That one holds at each GUID the database of the image, or a new one without
-- participants where the image has none and the manager runs a participant with the GUID, or else
-- nothing.
pub take_snapshot_enters_managed :
    (tp : TimePoint) (desc : String) (someone show : Bool) (k : Guid) (m : Manager)
    → IsSorted database_guid m.state.databases
    → (dbs : Databases) × (take_snapshot tp desc someone show m
        ≡ some (record m {
          snapshots =
              m.snapshots
              ++ record (m.state) {
                time = tp;
                last_pdp_callback = m.last_pdp_callback;
                last_edp_callback = m.last_edp_callback;
                des = desc;
                if_someone = someone;
                show_liveliness = show;
                databases = dbs;
              }
                ∷ [];
        }))
      × (find database_guid k dbs ≡ (
          if is_none (find database_guid k m.state.databases) && runs k m
          then some (new_database k "")
          else find database_guid k m.state.databases))
unfolding take_snapshot
take_snapshot_enters_managed tp desc someone show k m s = (
  enter_all (managed m) m.state.databases,
  rw (enter_all_res (managed m) m.state.databases s) refl,
  find-enter_all k (managed m) m.state.databases s
      ∙ ap
          (λ b.
            if is_none (find database_guid k m.state.databases) && b
            then some (new_database k "")
            else find database_guid k m.state.databases)
          (has_key-managed k m),
)
