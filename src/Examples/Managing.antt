-- ===== src/Examples/Managing.antt =====
-- The snapshots of DiscoveryServerManager at the image of the tests.
use discovery_server.Prelude.{
  ◌≡◌, ◌↔◌, All, refl, Bool, true, false, some, List, [], ◌∷◌, ◌++◌, arith,
}
use discovery_server.Prelude.Int.{pos}
use discovery_server.OrderedSet.{find, emplace}
use discovery_server.Snapshot.{ParticipantDiscoveryDatabase, database_guid, new_database}
use discovery_server.Manager.{Manager, managed, take_snapshot, validate_all_snapshots}
use discovery_server.Manager.Managed.{take_snapshot_enters_managed}
use discovery_server.Manager.Validation.{
  all_known, IsPlainSnapshot, IsPlain, validate_all_snapshots_exact, IsConsistent,
  validate_all_snapshots_decides,
}
use discovery_server.Examples.{first, second, image, image-IsWellFormed}

-- A manager of the server 4 and the client 1.
abbrev pub manager : Manager
manager = record {
  servers = (4, 40) ∷ [];
  clients = (1, 10) ∷ [];
  simples = [];
  entity_map = [];
  data_readers = [];
  data_writers = [];
  state = image;
  snapshots = image ∷ [];
  no_callbacks = false;
  auto_shutdown = true;
  enable_prefix_validation = true;
  correctly_created = true;
  snapshots_output_file = "";
  validate = true;
  last_pdp_callback = pos 3;
  last_edp_callback = pos 4;
  shared_memory_off = false;
}

take_snapshot_enters_managed_example :
    (dbs : List ParticipantDiscoveryDatabase) × (take_snapshot (pos 9) "end" true false manager
      ≡ some (record manager {
        snapshots =
            manager.snapshots
            ++ record image {
              time = pos 9;
              last_pdp_callback = pos 3;
              last_edp_callback = pos 4;
              des = "end";
              if_someone = true;
              show_liveliness = false;
              databases = dbs;
            }
              ∷ [];
      }))
    × (find database_guid 4 dbs ≡ some (new_database 4 ""))
unfolding managed find emplace
take_snapshot_enters_managed_example =
    take_snapshot_enters_managed (pos 9) "end" true false 4 manager image-IsWellFormed.ordered

first-IsPlain : IsPlain first
unfolding find
first-IsPlain = record { in_order = (omega arith, (omega arith, tt)); not_own = refl }

second-IsPlain : IsPlain second
unfolding find
second-IsPlain = record { in_order = (omega arith, tt); not_own = refl }

image-IsPlainSnapshot : IsPlainSnapshot image
image-IsPlainSnapshot = record {
  databases_in_order = image-IsWellFormed.ordered;
  databases_plain = (first-IsPlain, (second-IsPlain, tt));
}

validate_all_snapshots_exact_example :
    validate_all_snapshots manager ≡ some (all_known manager.snapshots)
validate_all_snapshots_exact_example =
    validate_all_snapshots_exact manager (image-IsPlainSnapshot, tt)

validate_all_snapshots_decides_example :
    (r : Bool) × (validate_all_snapshots manager ≡ some r)
    × ((r ≡ true) ↔ All IsConsistent manager.snapshots)
validate_all_snapshots_decides_example = validate_all_snapshots_decides manager
