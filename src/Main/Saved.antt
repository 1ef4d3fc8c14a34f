-- ===== src/Main/Saved.antt =====
-- main, src/main.cpp, on a file of snapshots that saveSnapshots wrote.
use discovery_server.Prelude.{
  ℕ, length, arith, ◌≡◌, refl, ap, sym, ◌∙◌, Bool, true, false, not, Option, none, some, List, [],
  ◌∷◌, String, if◌then◌else◌, bind_option, is_empty, All, map,
}
use discovery_server.Prelude.Int.{ℤ, pos, negsuc}
use discovery_server.Outcome.{Outcome, done, aborted}
use discovery_server.Item.{TimePoint}
use discovery_server.Snapshot.{Snapshot}
use discovery_server.Snapshot.RoundTrip.{IsOrdered}
use discovery_server.Manager.{
  Manager, Pointer, should_validate, validate_snapshots, validate_all_snapshots,
}
use discovery_server.Manager.Files.{save_snapshots}
use discovery_server.Manager.Termination.{on_terminate, end_process}
use discovery_server.Manager.Reload.{
  reloaded_here, load_snapshots-save_snapshots, validate_all_snapshots-load_snapshots,
}
use discovery_server.Dds.{Dds}
use discovery_server.Events.Run.{run_events}
use discovery_server.Xml.{Xml, GuidText}
use discovery_server.Ids.{s_ds, s_ds_snapshots}
use discovery_server.Config.{Loading}
use discovery_server.Config.Construction.{construct, read_snapshots}
use discovery_server.Main.{
  exit_code, new_loading, run_manager, with_output_file, destroy_manager, main,
}

validate_snapshots_code :
    (ss : List Snapshot) (code : ℤ) (b : Bool)
    → validate_snapshots ss true ≡ some b
    → (if not (is_empty ss)
        then bind_option
            (validate_snapshots ss true)
            (λ valid. some (if valid then code else negsuc 0))
        else some code)
      ≡ some (if b then code else negsuc 0)
unfolding validate_snapshots
validate_snapshots_code [] code b h = grind (arith, h)
validate_snapshots_code (s ∷ ss) code b h = rw h refl

pub exit_code-validate_all_snapshots :
    (code : ℤ) (m : Manager) (b : Bool)
    → m.validate ≡ true
    → validate_all_snapshots m ≡ some b
    → exit_code code m ≡ some (if b then code else negsuc 0)
unfolding exit_code should_validate validate_all_snapshots
exit_code-validate_all_snapshots code m b e h = rw e (validate_snapshots_code m.snapshots code b h)

length_zero : {A : Type 0} (xs : List A) → length xs ≡ 0 → xs ≡ []
length_zero [] h = refl
length_zero (x ∷ xs) h = grind (arith, h)

module _ (d : Dds) (x : Xml) (g : GuidText)
    (system_clock steady_clock system_clock' steady_clock' start start' : TimePoint) where
  module _ (ndebug has_file : Bool) (read_int : String → ℤ)
      (match_address : String → Option (String × String)) (read_long : String → Option ℕ)
      (schedule : Loading d → List (Pointer × TimePoint)) where
    abbrev after_loading : Bool → d.World → Manager → Loading d
    after_loading off w m =
        let l = new_loading d x g system_clock' steady_clock' start start' off w in
        record l {
          process = record (l.process) {
            manager = record (l.process.manager) {
              snapshots =
                  map (reloaded_here x g system_clock steady_clock system_clock' steady_clock')
                    m.snapshots;
              validate = true;
              auto_shutdown = true;
            };
          };
        }

    construct_saved :
        (w : d.World) (m : Manager) (off : Bool) (doc : x.Element)
        → All IsOrdered m.snapshots
        → x.children s_ds doc ≡ []
        → x.children s_ds_snapshots doc ≡ save_snapshots x g system_clock steady_clock m ∷ []
        → construct d x ndebug has_file read_int match_address read_long g system_clock'
            steady_clock'
            (some doc)
            (new_loading d x g system_clock' steady_clock' start start' off w)
          ≡ done (after_loading off w m)
    unfolding construct read_snapshots new_loading
    construct_saved w m off doc h no_config root =
        rw
          (
            construct,
            no_config,
            root,
            read_snapshots,
            load_snapshots-save_snapshots x g system_clock steady_clock system_clock' steady_clock'
                m (new_loading d x g system_clock' steady_clock' start start' off w).process.manager
                h refl,
          )
          refl

    still_valid :
        (w : d.World) (m : Manager) (verdict off : Bool)
        → All IsOrdered m.snapshots
        → validate_all_snapshots m ≡ some verdict
        → validate_all_snapshots (after_loading off w m).process.manager ≡ some verdict
    unfolding validate_all_snapshots new_loading
    still_valid w m verdict off h v =
        let m' =
          (new_loading d x g system_clock' steady_clock' start start' off w).process.manager in
        sym (
          ap (λ o. bind_option o (λ r. validate_all_snapshots r.0))
            (load_snapshots-save_snapshots x g system_clock steady_clock system_clock' steady_clock'
              m m' h refl))
        ∙ validate_all_snapshots-load_snapshots x g system_clock steady_clock system_clock'
            steady_clock' m m' h refl
        ∙ v

    abbrev returned : Option ℤ → Outcome (ℤ × Option x.Element)
    returned none = aborted
    returned (some code) = done (code, none)

    run_manager_saved :
        (w : d.World) (m : Manager) (verdict off : Bool)
        → All IsOrdered m.snapshots
        → validate_all_snapshots m ≡ some verdict
        → ((l : Loading d) → length (schedule l) ≡ length l.queue)
        → run_manager d x g system_clock' steady_clock' start start' ndebug has_file read_int
            match_address read_long schedule none
            (after_loading off w m)
          ≡ done (if verdict then pos 1 else negsuc 0, none)
    unfolding run_manager run_events new_loading with_output_file on_terminate destroy_manager
        end_process
    run_manager_saved w m verdict off h v keeps =
        rw
          (
            run_manager,
            length_zero (schedule (after_loading off w m)) (keeps (after_loading off w m)),
          )
          (ap returned (
            exit_code-validate_all_snapshots (pos 1) (after_loading off w m).process.manager verdict
              refl (still_valid w m verdict off h v)))

    -- A manager saved its snapshots, which are in order and have descriptions, and validates them with
    -- some verdict. Where a document with this root and no configuration is in the one file on a
    -- sound command line without an output file, and the sort keeps the number of events, main
    -- returns 1 if the verdict is that the snapshots are valid, and -1 if not, but never 0, and
    -- writes no document.
    pub main-save_snapshots :
        (file : String → Option x.Element) (w : d.World) (m : Manager) (verdict off : Bool)
        (path : String) (doc : x.Element)
        → All IsOrdered m.snapshots
        → validate_all_snapshots m ≡ some verdict
        → file path ≡ some doc
        → x.children s_ds doc ≡ []
        → x.children s_ds_snapshots doc ≡ save_snapshots x g system_clock steady_clock m ∷ []
        → ((l : Loading d) → length (schedule l) ≡ length l.queue)
        → main d x g system_clock' steady_clock' start start' ndebug has_file read_int match_address
            read_long schedule file w
            (record {
              error = false;
              non_options = 0;
              help = false;
              no_arguments = false;
              config_files = path ∷ [];
              output_file = none;
              shared_memory_off = off;
            })
          ≡ done (if verdict then pos 1 else negsuc 0, none)
    unfolding main
    main-save_snapshots file w m verdict off path doc h v here no_config root keeps =
        rw (here, construct_saved w m off doc h no_config root)
          (run_manager_saved w m verdict off h v keeps)
