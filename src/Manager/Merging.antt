-- ===== src/Manager/Merging.antt =====
-- loadSnapshots into a manager that has snapshots, src/DiscoveryServerManager.cpp.
use discovery_server.Prelude.{◌≡◌, refl, true, some, List, [], ◌∷◌, map, All}
use discovery_server.Item.{TimePoint}
use discovery_server.Snapshot.{Snapshot}
use discovery_server.Snapshot.Merge.{merge}
use discovery_server.Snapshot.RoundTrip.{IsOrdered, from_xml-to_xml}
use discovery_server.Xml.{Xml, GuidText}
use discovery_server.Ids.{s_ds_snapshot}
use discovery_server.Manager.{Manager}
use discovery_server.Manager.Files.{save_snapshots, load_snapshots, merge_each}
use discovery_server.Manager.Reload.{reloaded_here, saved, snapshot_element}

-- Each snapshot merged with the one in the same place of the file. Those of the file that have no
-- partner are dropped, those of the manager that have none stay as they are.
abbrev pub merge_pairs : List Snapshot → List Snapshot → List Snapshot
merge_pairs [] shs = []
merge_pairs (s ∷ ss) [] = s ∷ ss
merge_pairs (s ∷ ss) (sh ∷ shs) = merge s sh ∷ merge_pairs ss shs

module _ (x : Xml) (g : GuidText)
    (system_clock steady_clock system_clock' steady_clock' : TimePoint) where
  merge_each-map :
      (shs it : List Snapshot)
      → All IsOrdered shs
      → merge_each x g system_clock' steady_clock'
          (map (snapshot_element x g system_clock steady_clock system_clock' steady_clock') shs)
          it
        ≡ some (
            merge_pairs it
              (map (reloaded_here x g system_clock steady_clock system_clock' steady_clock') shs))
  unfolding merge_each
  merge_each-map [] [] h = refl
  merge_each-map [] (s ∷ it) h = refl
  merge_each-map (sh ∷ shs) [] h =
      rw
        (from_xml-to_xml x g system_clock steady_clock s_ds_snapshot sh system_clock' steady_clock'
          h.0 steady_clock')
        refl
  merge_each-map (sh ∷ shs) (s ∷ it) h =
      rw
        (
          from_xml-to_xml x g system_clock steady_clock s_ds_snapshot sh system_clock' steady_clock'
              h.0 steady_clock',
          merge_each-map shs it h.1,
        )
        refl

  -- Where the manager has snapshots, and those that were saved are in order and have descriptions,
  -- loadSnapshots returns true and merges each snapshot of the manager with the saved one in the
  -- same place, if there is one. Saved ones behind the last of the manager are dropped.
  pub load_snapshots_merges :
      (m m' : Manager) (s : Snapshot) (ss : List Snapshot)
      → All IsOrdered m.snapshots
      → m'.snapshots ≡ s ∷ ss
      → load_snapshots x g system_clock' steady_clock'
          (some (save_snapshots x g system_clock steady_clock m))
          m'
        ≡ some (
          record m' {
            snapshots = merge_pairs m'.snapshots (
                map
                  (reloaded_here x g system_clock steady_clock system_clock' steady_clock')
                  m.snapshots);
          },
          true,
        )
  unfolding load_snapshots
  load_snapshots_merges m m' s ss h e =
      rw
        (
          e,
          saved x g system_clock steady_clock system_clock' steady_clock' m,
          merge_each-map m.snapshots (s ∷ ss) h,
        )
        refl
