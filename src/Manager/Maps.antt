-- ===== src/Manager/Maps.antt =====
-- The maps of DiscoveryServerManager from GUIDs to what it has created,
-- src/DiscoveryServerManager.cpp. An object of Fast DDS that is passed in comes with its GUID.
use discovery_server.Prelude.{
  ℕ, Bool, Option, none, some, [], ◌∷◌, ◌==◌, if◌then◌else◌, is_none, map_option,
}
use discovery_server.OrderedSet.{find, emplace, erase, modify}
use discovery_server.Outcome.{Outcome, done, aborted, assert_then}
use discovery_server.Item.{Guid}
use discovery_server.Database.{remove_database}
use discovery_server.Manager.{Manager, Pointer, GuidMap, entry_guid}

-- `map[id] = a`.
unfoldable pub assign : {A : Type 0} → Guid → A → GuidMap A → GuidMap A
assign id a m = modify entry_guid id (λ e. (id, a)) (emplace entry_guid (id, a) m)

unfoldable pub value_at : {A : Type 0} → Guid → GuidMap A → Option A
value_at id m = map_option (λ e. e.1) (find entry_guid id m)

-- `assert(map[id] == nullptr)`, and the write behind it: no entry of the map is null.
unfoldable pub assign_new : Bool → Guid → Pointer → GuidMap Pointer → Outcome (GuidMap Pointer)
unfolding assign
assign_new ndebug id a m = assert_then ndebug (is_none (find entry_guid id m)) (assign id a m)

abbrev pub then_write : Outcome (GuidMap Pointer) → (GuidMap Pointer → Manager) → Outcome Manager
then_write (done es) f = done (f es)
then_write aborted f = aborted

unfoldable pub add_server : Bool → Guid → Pointer → Manager → Outcome Manager
unfolding assign_new
add_server ndebug guid s m =
    then_write (assign_new ndebug guid s m.servers) (λ es. record m { servers = es })

unfoldable pub add_client : Bool → Guid → Pointer → Manager → Outcome Manager
unfolding assign_new
add_client ndebug guid c m =
    then_write (assign_new ndebug guid c m.clients) (λ es. record m { clients = es })

unfoldable pub add_simple : Bool → Guid → Pointer → Manager → Outcome Manager
unfolding assign_new
add_simple ndebug guid s m =
    then_write (assign_new ndebug guid s m.simples) (λ es. record m { simples = es })

-- The search of getParticipant behind the map of created entities.
abbrev pub first_of : Option Pointer → Option Pointer → Option Pointer
first_of (some p) q = some p
first_of none q = q

unfoldable pub get_participant : Guid → Manager → Option Pointer
unfolding value_at
get_participant id m = elim (find entry_guid id m.entity_map) [
  | none ↦
      first_of (value_at id m.clients) (first_of (value_at id m.servers) (value_at id m.simples))
  | some info ↦ info.1.participant
]

-- std::remove_copy_if with the test on the prefix of the GUID.
unfoldable pub without_prefix : {A : Type 0} → (Guid → ℕ) → Guid → GuidMap A → GuidMap A
without_prefix prefix id [] = []
without_prefix prefix id (e ∷ es) =
    if prefix id == prefix e.0 then without_prefix prefix id es else e ∷ without_prefix prefix id es

-- The participant goes from the first of the three maps that has it.
unfoldable pub take_out : Guid → Manager → Option Pointer × Manager
unfolding value_at
take_out id m = elim (value_at id m.clients) [
  | some p ↦ (some p, record m { clients = erase entry_guid id m.clients })
  | none ↦ elim (value_at id m.servers) [
    | some p ↦ (some p, record m { servers = erase entry_guid id m.servers })
    | none ↦ elim (value_at id m.simples) [
      | some p ↦ (some p, record m { simples = erase entry_guid id m.simples })
      | none ↦ (none, m)
    ]
  ]
]

-- removeParticipant; `prefix` is GUID_t::guidPrefix.
unfoldable pub remove_participant : (Guid → ℕ) → Guid → Manager → Option Pointer × Manager
unfolding without_prefix take_out
remove_participant prefix id m = take_out id (record m {
  state = (remove_database id m.state).1;
  data_writers = without_prefix prefix id m.data_writers;
  data_readers = without_prefix prefix id m.data_readers;
})

-- A null pointer is refused without a trace.
unfoldable pub add_data_reader : Bool → Option (Guid × Pointer) → Manager → Outcome Manager
unfolding assign_new
add_data_reader ndebug none m = done m
add_data_reader ndebug (some dr) m =
    then_write (assign_new ndebug dr.0 dr.1 m.data_readers) (λ es. record m { data_readers = es })

unfoldable pub add_data_writer : Bool → Option (Guid × Pointer) → Manager → Outcome Manager
unfolding assign_new
add_data_writer ndebug none m = done m
add_data_writer ndebug (some dw) m =
    then_write (assign_new ndebug dw.0 dw.1 m.data_writers) (λ es. record m { data_writers = es })

unfoldable pub get_data_reader : Guid → Manager → Option Pointer
unfolding value_at
get_data_reader id m = value_at id m.data_readers

unfoldable pub get_data_writer : Guid → Manager → Option Pointer
unfolding value_at
get_data_writer id m = value_at id m.data_writers

unfoldable pub remove_subscriber : Guid → Manager → Option Pointer × Manager
unfolding value_at
remove_subscriber id m = elim (value_at id m.data_readers) [
  | none ↦ (none, m)
  | some dr ↦ (some dr, record m { data_readers = erase entry_guid id m.data_readers })
]

unfoldable pub remove_publisher : Guid → Manager → Option Pointer × Manager
unfolding value_at
remove_publisher id m = elim (value_at id m.data_writers) [
  | none ↦ (none, m)
  | some dw ↦ (some dw, record m { data_writers = erase entry_guid id m.data_writers })
]
