-- ===== src/Examples/Exiting.antt =====
-- A file of snapshots as the only configuration of the program.
use discovery_server.Prelude.{
  length, ◌≡◌, refl, ap, true, false, none, some, Option, String, List, [], ◌∷◌, map, str_eq,
  if◌then◌else◌, suc,
}
use discovery_server.Prelude.Int.{pos}
use discovery_server.Outcome.{done}
use discovery_server.Item.{TimePoint}
use discovery_server.Item.Equality.{participant_ne, set_eq}
use discovery_server.Compare.{database_eq}
use discovery_server.Manager.{Pointer, validate_all_snapshots}
use discovery_server.Manager.Files.{save_snapshots}
use discovery_server.Config.{Loading}
use discovery_server.Main.{main}
use discovery_server.Main.Saved.{main-save_snapshots}
use discovery_server.Examples.Document.{Tree, document, guid_text}
use discovery_server.Examples.Running.{dds}
use discovery_server.Examples.Reloading.{saving, described-IsOrdered}

abbrev saved_document : Tree
saved_document =
    document.insert_end_child
      (save_snapshots document guid_text (pos 80000000) (pos 1000000) saving)
      (document.new_element "")

abbrev saved_file : String → Option Tree
saved_file path = if str_eq path "shot.xml" then some saved_document else none

abbrev start : Pointer → Pointer × TimePoint
start p = (p, pos 0)

abbrev schedule : Loading dds → List (Pointer × TimePoint)
schedule l = map start l.queue

length-map-start : (ps : List Pointer) → length (map start ps) ≡ length ps
length-map-start [] = refl
length-map-start (p ∷ ps) = ap suc (length-map-start ps)

main-save_snapshots_example :
    main dds document guid_text
      (pos 90000000)
      (pos 3000000)
      (pos 3000001)
      (pos 3000002)
      true
      false
      (λ s. pos 0)
      (λ s. none)
      (λ s. none)
      schedule
      saved_file
      6
      (record {
        error = false;
        non_options = 0;
        help = false;
        no_arguments = false;
        config_files = "shot.xml" ∷ [];
        output_file = none;
        shared_memory_off = false;
      })
    ≡ done (pos 1, none)
unfolding save_snapshots validate_all_snapshots database_eq participant_ne set_eq
main-save_snapshots_example =
    main-save_snapshots dds document guid_text (pos 80000000) (pos 1000000) (pos 90000000)
      (pos 3000000) (pos 3000001) (pos 3000002) true false (λ s. pos 0) (λ s. none) (λ s. none)
      schedule saved_file 6 saving true false "shot.xml" saved_document (described-IsOrdered, tt)
      refl refl refl refl (λ l. length-map-start l.queue)
