-- ===== src/Main.antt =====
-- The program, src/main.cpp, with the destructor of DiscoveryServerManager. What the option parser makes
-- of the command line is an argument, and so is what a file holds.
pub mod Saved
use discovery_server.Prelude.{
  ℕ, ◌==◌, ◌||◌, not, Bool, true, false, Option, none, some, List, [], ◌∷◌, String, str_eq,
  if◌then◌else◌, bind_option,
}
use discovery_server.Prelude.Int.{ℤ, pos, negsuc}
use discovery_server.Outcome.{Outcome, done, aborted, ◌>>=◌}
use discovery_server.Item.{TimePoint}
use discovery_server.Snapshot.{new_snapshot}
use discovery_server.Manager.{Manager, Pointer, should_validate, validate_all_snapshots}
use discovery_server.Manager.Files.{save_snapshots}
use discovery_server.Manager.Termination.{on_terminate}
use discovery_server.Dds.{Dds}
use discovery_server.Events.{Process}
use discovery_server.Events.Run.{run_events}
use discovery_server.Xml.{Xml, GuidText}
use discovery_server.Config.{Loading}
use discovery_server.Config.Construction.{construct}

-- The command line: whether it is in error, the arguments that are no options, -h, whether there are any
-- arguments, those of -c, that of the first -o, and -s.
pub record Arguments : Type 0 where
  pub error : Bool
  pub non_options : ℕ
  pub help : Bool
  pub no_arguments : Bool
  pub config_files : List String
  pub output_file : Option String
  pub shared_memory_off : Bool

-- The members of the manager before the body of its constructor. The database reads the clock twice.
unfoldable pub new_manager : TimePoint → TimePoint → TimePoint → Bool → Manager
new_manager steady_clock start start' shared_memory_off = record {
  servers = [];
  clients = [];
  simples = [];
  entity_map = [];
  data_readers = [];
  data_writers = [];
  state = new_snapshot steady_clock start start' steady_clock true false;
  snapshots = [];
  no_callbacks = false;
  auto_shutdown = true;
  enable_prefix_validation = true;
  correctly_created = false;
  snapshots_output_file = "";
  validate = false;
  last_pdp_callback = steady_clock;
  last_edp_callback = steady_clock;
  shared_memory_off = shared_memory_off;
}

unfoldable pub with_output_file : Option String → Manager → Manager
with_output_file none m = m
with_output_file (some path) m = record m { snapshots_output_file = path }

-- The check of the snapshots, on the return code so far.
unfoldable pub exit_code : ℤ → Manager → Option ℤ
unfolding should_validate
exit_code code m =
    if should_validate m
    then bind_option (validate_all_snapshots m) (λ valid. some (if valid then code else negsuc 0))
    else some code

module _ (d : Dds) (x : Xml) (g : GuidText)
    (system_clock steady_clock start start' : TimePoint) where
  -- ~DiscoveryServerManager: the document that it writes.
  unfoldable pub destroy_manager : Manager → Option x.Element
  destroy_manager m =
      if str_eq m.snapshots_output_file ""
      then none
      else some (save_snapshots x g system_clock steady_clock m)

  unfoldable pub new_loading : Bool → d.World → Loading d
  unfolding new_manager
  new_loading shared_memory_off w = record {
    process = record {
      world = w;
      manager = new_manager steady_clock start start' shared_memory_off;
      events = [];
      environment = none;
    };
    queue = [];
    topic_profiles = [];
    server_locators = [];
  }

  -- `schedule` is the events as std::sort puts them in order, with what the clock shows after each wait.
  module _ (ndebug has_file : Bool) (read_int : String → ℤ)
      (match_address : String → Option (String × String)) (read_long : String → Option ℕ)
      (schedule : Loading d → List (Pointer × TimePoint)) where
    -- What main does with the constructed manager. A validation that does not end is an abort.
    unfoldable pub run_manager : Option String → Loading d → Outcome (ℤ × Option x.Element)
    unfolding with_output_file exit_code destroy_manager
    run_manager output l = do
      r ←
          run_events d ndebug has_file (schedule l)
            (record (l.process) { manager = with_output_file output l.process.manager })
      elim (exit_code (if l.process.manager.correctly_created then pos 0 else pos 1) r.manager) [
        | none ↦ aborted
        | some code ↦ done (code, destroy_manager (on_terminate d r).manager)
      ]

    -- The return code of main, with the document that the program leaves.
    unfoldable pub main :
        (String → Option x.Element) → d.World → Arguments → Outcome (ℤ × Option x.Element)
    unfolding run_manager new_loading
    main file w a =
        if a.error || not (a.non_options == 0)
        then done (pos 1, none)
        else if a.help || a.no_arguments
        then done (pos 0, none)
        else (elim a.config_files [
          | [] ↦ done (pos 1, none)
          | path ∷ paths ↦ elim paths [
            | [] ↦
                construct d x ndebug has_file read_int match_address read_long g system_clock
                  steady_clock (file path) (new_loading a.shared_memory_off w)
                >>= λ l. run_manager a.output_file l
            | p ∷ ps ↦ done (pos 1, none)
          ]
        ])
