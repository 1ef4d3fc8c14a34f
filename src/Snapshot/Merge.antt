-- ===== src/Snapshot/Merge.antt =====
-- Snapshot::operator +=, src/DiscoveryItem.cpp: the snapshots of several processes into one. The
-- warning on snapshots that are not in step is not modelled.
use discovery_server.Prelude.{suc, ◌≡◌, ◌&&◌, ◌||◌, List, [], ◌∷◌, arith, if◌then◌else◌, is_none}
use discovery_server.Prelude.Int.{◌-ℤ◌, ltb_ℤ}
use discovery_server.OrderedSet.{find, emplace}
use discovery_server.OrderedSet.Order.{IsSorted, emplace-Above, Above}
use discovery_server.OrderedSet.Lookup.{find-emplace, find_below}
use discovery_server.Item.{Guid, TimePoint}
use discovery_server.Snapshot.{ParticipantDiscoveryDatabase, Snapshot, database_guid}
use discovery_server.Snapshot.Lookup.{database_at}

-- The later of two calls, counted from the start of the process of each.
unfoldable pub later_call : TimePoint → TimePoint → TimePoint → TimePoint → TimePoint
later_call start call start' call' = if ltb_ℤ (call -ℤ start) (call' -ℤ start') then call' else call

-- insert of a range into a set: a database that is there stays.
unfoldable pub insert_databases :
    List ParticipantDiscoveryDatabase
    → List ParticipantDiscoveryDatabase
    → List ParticipantDiscoveryDatabase
insert_databases [] dbs = dbs
insert_databases (d ∷ ds) dbs = insert_databases ds (emplace database_guid d dbs)

unfoldable pub merge : Snapshot → Snapshot → Snapshot
unfolding later_call insert_databases
merge s sh = record s {
  last_pdp_callback =
      later_call s.process_startup s.last_pdp_callback sh.process_startup sh.last_pdp_callback;
  last_edp_callback =
      later_call s.process_startup s.last_edp_callback sh.process_startup sh.last_edp_callback;
  show_liveliness = s.show_liveliness || sh.show_liveliness;
  if_someone = s.if_someone && sh.if_someone;
  databases = insert_databases sh.databases s.databases;
}

pub insert_databases-IsSorted :
    (ds dbs : List ParticipantDiscoveryDatabase)
    → IsSorted database_guid dbs
    → IsSorted database_guid (insert_databases ds dbs)
unfolding insert_databases
insert_databases-IsSorted [] dbs s = s
insert_databases-IsSorted (d ∷ ds) dbs s =
    insert_databases-IsSorted ds (emplace database_guid d dbs)
      (emplace-Above database_guid 0 d dbs (omega arith) s)

find-insert_databases :
    (k b : Guid) (ds dbs : List ParticipantDiscoveryDatabase)
    → Above database_guid b ds
    → IsSorted database_guid dbs
    → find database_guid k (insert_databases ds dbs) ≡ (
        if is_none (find database_guid k dbs)
        then find database_guid k ds
        else find database_guid k dbs)
unfolding insert_databases find
find-insert_databases k b [] dbs h s = ground arith
find-insert_databases k b (d ∷ ds) dbs h s = ground (
  arith,
  find-insert_databases k (suc d.endpoint_guid) ds (emplace database_guid d dbs) h.1
      (emplace-Above database_guid 0 d dbs (omega arith) s),
  find-emplace database_guid k 0 d dbs s,
  find_below database_guid k (suc d.endpoint_guid) ds,
)

-- In a merged snapshot whose parts are in GUID order, a spokesman has the database that the first
-- snapshot holds for it, or else the one of the second; the merged databases are in order too.
pub database_at-merge :
    (k : Guid) (s sh : Snapshot)
    → IsSorted database_guid s.databases
    → IsSorted database_guid sh.databases
    → IsSorted database_guid (merge s sh).databases
      × (database_at k (merge s sh)
          ≡ (if is_none (database_at k s) then database_at k sh else database_at k s))
unfolding merge
database_at-merge k s sh h h' = (
  insert_databases-IsSorted sh.databases s.databases h,
  find-insert_databases k 0 sh.databases s.databases h' h,
)
