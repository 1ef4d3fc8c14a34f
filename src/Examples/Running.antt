-- ===== src/Examples/Running.antt =====
-- The events of the tests: a participant that another event destroys, and a reader of a participant.
use discovery_server.Prelude.{
  Bool, ℕ, suc, ◌+◌, ◌*◌, ◌/◌, ◌≡◌, refl, true, false, Option, none, some, [], ◌∷◌, arith, ◌==◌,
  if◌then◌else◌,
}
use discovery_server.Prelude.Int.{pos}
use discovery_server.OrderedSet.{find, modify}
use discovery_server.Outcome.{done, aborted}
use discovery_server.Manager.Maps.{get_participant, value_at}
use discovery_server.Dds.{Dds, server}
use discovery_server.Events.Kinds.{of_reader}
use discovery_server.Events.{
  as_client, participant_creation, participant_destruction, endpoint_creation,
  DelayedParticipantCreation, DelayedEndpointCreation, Process, Store, event_at,
}
use discovery_server.Events.Run.{execute, run_events}
use discovery_server.Events.Lives.{IsOrderedManager, IsNew}
use discovery_server.Events.Linked.{run_events-linked}
use discovery_server.Events.Invariant.{EachNew, run_events-IsTracked}
use discovery_server.Events.Tracked.{IsTracked, TrackedAfter}
use discovery_server.Events.Orphans.{run_events_null}
use discovery_server.Examples.{image-IsWellFormed}
use discovery_server.Examples.Managing.{manager}

-- Every call succeeds. The world counts the entities; a participant is a multiple of 16, and its
-- pointer is its GUID.
abbrev pub dds : Dds
dds = record {
  World = ℕ;
  Qos = ℕ;
  guid = λ p. p;
  prefix = λ g. g / 16;
  participant_of = λ p. (p / 16) * 16;
  create_participant = λ q w. (some (16 * suc w), suc w);
  delete_participant = λ p w. (true, w);
  create_publisher = λ p w. (some (p + 1), w);
  create_subscriber = λ p w. (some (p + 2), w);
  set_listener = λ l p w. w;
  delete_contained_entities = λ p w. (true, w);
  register_type = λ p w. w;
  create_topic = λ p n t w. (some (p + 3), w);
  create_topic_with_profile = λ p n t f w. (some (p + 4), w);
  create_datawriter = λ p t w. (some (p + 5), w);
  create_datawriter_with_profile = λ p t f w. (some (p + 6), w);
  delete_datawriter = λ p e w. (true, w);
  create_datareader = λ p t w. (some (p + 7), w);
  create_datareader_with_profile = λ p t f w. (some (p + 8), w);
  delete_datareader = λ p e w. (true, w);
  default_qos = 0;
  participant_profile = λ n. some 1;
  discovery_protocol = λ q. server;
  set_name = λ n q. q;
  user_transports = λ q. [];
  set_user_transports = λ ts q. q;
  udp_only = λ q. q;
  qos_prefix = λ q. q;
  set_prefix = λ p q. p;
  read_prefix = λ s p. (true, 9);
  unknown_prefix = 0;
  participant_guid = λ p. p * 16;
  Locators = Bool;
  no_locators = false;
  are_no_locators = λ b. if b then false else true;
  metatraffic_locators = λ q. false;
  set_metatraffic_locators = λ l q. q;
}

abbrev pub client : Option ℕ → DelayedParticipantCreation ℕ
client removal = record {
  time = pos 1;
  qos = 0;
  role = as_client;
  removal_event = removal;
  participant_guid = 0;
}

-- A reader that is associated with an event, or with none.
abbrev late_reader : Option ℕ → DelayedEndpointCreation
late_reader owner = record {
  time = pos 2;
  topic_name = "topic";
  type_name = "UNDEF";
  topic_profile_name = "";
  endpoint_profile_name = "";
  participant_guid = 0;
  linked_destruction_event = none;
  owner_event = owner;
}

abbrev pub process : Store ℕ → Process dds
process es = record { world = 6; manager = manager; events = es; environment = none }

abbrev linked : Process dds
linked =
    process
      ((1, participant_creation (client (some 2))) ∷ (2, participant_destruction (pos 5) 0) ∷ [])

abbrev associated : Process dds
associated = process (
    (1, participant_creation (client none))
    ∷ (2, endpoint_creation of_reader (late_reader (some 1)))
    ∷ [])

manager-IsOrderedManager : IsOrderedManager manager
manager-IsOrderedManager = record {
  registry = record {
    clients_sorted = (omega arith, tt);
    servers_sorted = (omega arith, tt);
    simples_sorted = tt;
    writers_sorted = tt;
    readers_sorted = tt;
    state_sorted = image-IsWellFormed.ordered;
  };
  entities = tt;
}

manager-IsNew : IsNew 112 manager
unfolding value_at find
manager-IsNew = record { no_client = refl; no_server = refl; no_simple = refl }

run_events-linked_example :
    (r' : Process dds) × (run_events dds false true ((1, pos 1) ∷ (2, pos 5) ∷ []) linked ≡ done r')
    × (get_participant 4 r'.manager ≡ (if 112 == 4 then none else get_participant 4 manager))
unfolding event_at find
run_events-linked_example =
    run_events-linked dds false (client (some 2)) linked true (pos 1) (pos 5) (pos 5) 1 2 112 0 4
      manager-IsOrderedManager (omega arith, (omega arith, tt)) refl refl refl refl refl refl
      manager-IsNew

run_events_null_example :
    run_events dds false true ((1, pos 1) ∷ (2, pos 2) ∷ []) associated ≡ aborted
unfolding event_at find get_participant value_at
run_events_null_example =
    run_events_null dds false (client none) (late_reader (some 1)) of_reader associated 1 2 112
      manager-IsOrderedManager (omega arith, (omega arith, tt)) refl refl refl refl refl refl refl
      refl true (pos 1) (pos 2) refl manager-IsNew

-- A manager without participants.
abbrev starting : Process dds
starting = record linked { manager = record manager { clients = []; servers = [] } }

starting-IsTracked : IsTracked dds starting.manager
unfolding value_at find
starting-IsTracked = record {
  ordered = record {
    registry = record {
      clients_sorted = tt;
      servers_sorted = tt;
      simples_sorted = tt;
      writers_sorted = tt;
      readers_sorted = tt;
      state_sorted = image-IsWellFormed.ordered;
    };
    entities = tt;
  };
  created = λ k. refl;
  one_role = λ k. omega arith;
  own_guid = λ k e. grind (arith, e);
}

starting-EachNew : EachNew dds false true ((1, pos 1) ∷ (2, pos 5) ∷ []) starting
unfolding EachNew event_at find execute value_at modify
starting-EachNew = (record { no_client = refl; no_server = refl; no_simple = refl }, (tt, tt))

run_events-IsTracked_example :
    TrackedAfter dds (run_events dds false true ((1, pos 1) ∷ (2, pos 5) ∷ []) starting)
run_events-IsTracked_example =
    run_events-IsTracked dds false true ((1, pos 1) ∷ (2, pos 5) ∷ []) starting starting-IsTracked
      starting-EachNew
