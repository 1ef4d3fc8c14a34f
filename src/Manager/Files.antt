-- ===== src/Manager/Files.antt =====
-- The files of snapshots, src/DiscoveryServerManager.cpp. A document is its root element; what
-- XMLDocument::LoadFile makes of a file, and SaveFile of a document, is not modelled. `none` is
-- that from_xml makes a std::string of a null pointer.
use discovery_server.Prelude.{
  Bool, true, false, Option, none, some, List, [], ◌∷◌, ◌++◌, String, if◌then◌else◌, is_empty,
  ◌>>=◌,
}
use discovery_server.Item.{TimePoint}
use discovery_server.Snapshot.{Snapshot, new_snapshot}
use discovery_server.Snapshot.Merge.{merge}
use discovery_server.Snapshot.Writing.{to_xml, insert_each}
use discovery_server.Snapshot.Reading.{from_xml}
use discovery_server.Xml.{Xml, GuidText}
use discovery_server.Ids.{s_ds_snapshots, s_ds_snapshot}
use discovery_server.Manager.{Manager}

unfoldable pub success_message : Manager → String
success_message m =
    if is_empty m.snapshots
    then "Discovery Server run succeeded!"
    else "Output file validation succeeded!"

module _ (x : Xml) (g : GuidText) (system_clock steady_clock : TimePoint) where
  open x use {Element, new_element, set_attribute, children, name}

  -- The root element of the document of saveSnapshots.
  unfoldable pub save_snapshots : Manager → Element
  unfolding to_xml insert_each
  save_snapshots m =
      insert_each x g (λ sh. to_xml x g system_clock steady_clock sh (new_element s_ds_snapshot))
        m.snapshots
        (set_attribute "xmlns" "http://www.eprosima.com/XMLSchemas/ds-snapshot"
          (new_element s_ds_snapshots))

  -- The default constructor of Snapshot, with what the clock shows.
  abbrev pub fresh_snapshot : Snapshot
  fresh_snapshot = new_snapshot steady_clock steady_clock steady_clock steady_clock true false

  -- The loop of loadSnapshots where the manager had no snapshots.
  unfoldable pub append_each : List Element → List Snapshot → Option (List Snapshot)
  append_each [] snapshots = some snapshots
  append_each (e ∷ es) snapshots = do
    sh ← from_xml x g system_clock steady_clock (some e) fresh_snapshot
    append_each es (snapshots ++ sh ∷ [])

  -- The same loop where it had some: `it` is the rest of them. It ends where there are no more.
  unfoldable pub merge_each : List Element → List Snapshot → Option (List Snapshot)
  unfolding merge
  merge_each [] it = some it
  merge_each (e ∷ es) [] = do
    sh ← from_xml x g system_clock steady_clock (some e) fresh_snapshot
    some []
  merge_each (e ∷ es) (s ∷ it) = do
    sh ← from_xml x g system_clock steady_clock (some e) fresh_snapshot
    rest ← merge_each es it
    some (merge s sh ∷ rest)

  unfoldable pub load_elements : List Element → List Snapshot → Option (List Snapshot)
  unfolding append_each merge_each
  load_elements es [] = append_each es []
  load_elements es (s ∷ it) = merge_each es (s ∷ it)

  -- loadSnapshots: the argument is the root element of the name DS_Snapshots of the document, if
  -- the file could be parsed and the document has one.
  unfoldable pub load_snapshots : Option Element → Manager → Option (Manager × Bool)
  unfolding load_elements
  load_snapshots none m = some (m, false)
  load_snapshots (some root) m = do
    snapshots ← load_elements (children s_ds_snapshot root) m.snapshots
    some (record m { snapshots = snapshots }, true)
