-- ===== src/Examples/Reloading.antt =====
-- The image of the tests and the snapshots of a manager, written to the document of the tests and
-- read again by a process that started later.
use discovery_server.Prelude.{◌≡◌, refl, true, false, some, [], ◌∷◌, map, bind_option, arith}
use discovery_server.Prelude.Int.{pos, ◌-ℤ◌}
use discovery_server.Snapshot.{Snapshot, new_snapshot}
use discovery_server.Snapshot.Writing.{set_discovered}
use discovery_server.Snapshot.Reading.{from_xml, get_discovered}
use discovery_server.Snapshot.Reloaded.{reloaded}
use discovery_server.Snapshot.RoundTrip.{IsOrderedDatabase, IsOrdered, written, from_xml-to_xml}
use discovery_server.Snapshot.Rounding.{IsWithinMs, get_discovered-set_discovered_within}
use discovery_server.Manager.{Manager, validate_all_snapshots}
use discovery_server.Manager.Files.{save_snapshots, load_snapshots}
use discovery_server.Manager.Reload.{
  reloaded_here, load_snapshots-save_snapshots, validate_all_snapshots-load_snapshots,
}
use discovery_server.Manager.Merging.{merge_pairs, load_snapshots_merges}
use discovery_server.Examples.{
  first, second, image, image-IsWellFormed, living-IsValidItem, zombie-IsValidItem,
}
use discovery_server.Examples.Managing.{manager}
use discovery_server.Examples.Document.{document, guid_text}

abbrev described : Snapshot
described = record image { des = "a test"; show_liveliness = true; time = pos 5000007 }

abbrev pub saving : Manager
saving = record manager { snapshots = described ∷ [] }

abbrev loading : Manager
loading = record manager { snapshots = [] }

first-IsOrderedDatabase : IsOrderedDatabase first
first-IsOrderedDatabase = record {
  in_order = (omega arith, (omega arith, tt));
  sets = (living-IsValidItem.sets, (zombie-IsValidItem.sets, tt));
}

second-IsOrderedDatabase : IsOrderedDatabase second
second-IsOrderedDatabase = record {
  in_order = (omega arith, tt);
  sets = (living-IsValidItem.sets, tt);
}

pub described-IsOrdered : IsOrdered described
described-IsOrdered = record {
  described = refl;
  databases_in_order = image-IsWellFormed.ordered;
  databases_ordered = (first-IsOrderedDatabase, (second-IsOrderedDatabase, tt));
}

from_xml-to_xml_example :
    from_xml document guid_text
      (pos 90000000)
      (pos 3000000)
      (some (written document guid_text (pos 80000000) (pos 1000000) "DS_Snapshot" described))
      (new_snapshot (pos 3000000) (pos 0) (pos 0) (pos 0) true false)
    ≡ some (reloaded guid_text (pos 80000000) (pos 1000000) (pos 90000000) (pos 3000000) described)
from_xml-to_xml_example =
    from_xml-to_xml document guid_text (pos 80000000) (pos 1000000) "DS_Snapshot" described
      (pos 90000000) (pos 3000000) described-IsOrdered (pos 0)

get_discovered-set_discovered_within_example : IsWithinMs (pos 7654321 -ℤ pos 1000000) (
    get_discovered document guid_text
      (pos 3000000)
      (set_discovered document guid_text (pos 1000000) (pos 7654321) (document.new_element "ptdi"))
    -ℤ pos 3000000)
get_discovered-set_discovered_within_example =
    get_discovered-set_discovered_within document guid_text (pos 1000000) (pos 3000000)
      (pos 7654321) (document.new_element "ptdi")

load_snapshots-save_snapshots_example :
    load_snapshots document guid_text
      (pos 90000000)
      (pos 3000000)
      (some (save_snapshots document guid_text (pos 80000000) (pos 1000000) saving))
      loading
    ≡ some (
      record loading {
        snapshots =
            map
              (reloaded_here document guid_text
                (pos 80000000)
                (pos 1000000)
                (pos 90000000)
                (pos 3000000))
              saving.snapshots;
      },
      true,
    )
load_snapshots-save_snapshots_example =
    load_snapshots-save_snapshots document guid_text (pos 80000000) (pos 1000000) (pos 90000000)
      (pos 3000000) saving loading (described-IsOrdered, tt) refl

validate_all_snapshots-load_snapshots_example :
    bind_option
      (load_snapshots document guid_text
        (pos 90000000)
        (pos 3000000)
        (some (save_snapshots document guid_text (pos 80000000) (pos 1000000) saving))
        loading)
      (λ r. validate_all_snapshots r.0)
    ≡ validate_all_snapshots saving
validate_all_snapshots-load_snapshots_example =
    validate_all_snapshots-load_snapshots document guid_text (pos 80000000) (pos 1000000)
      (pos 90000000) (pos 3000000) saving loading (described-IsOrdered, tt) refl

load_snapshots_merges_example :
    load_snapshots document guid_text
      (pos 90000000)
      (pos 3000000)
      (some (save_snapshots document guid_text (pos 80000000) (pos 1000000) saving))
      manager
    ≡ some (
      record manager {
        snapshots = merge_pairs manager.snapshots (
            map
              (reloaded_here document guid_text
                (pos 80000000)
                (pos 1000000)
                (pos 90000000)
                (pos 3000000))
              saving.snapshots);
      },
      true,
    )
load_snapshots_merges_example =
    load_snapshots_merges document guid_text (pos 80000000) (pos 1000000) (pos 90000000)
      (pos 3000000) saving manager image [] (described-IsOrdered, tt) refl
