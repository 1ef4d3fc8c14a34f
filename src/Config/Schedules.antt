-- ===== src/Config/Schedules.antt =====
-- loadSnapshot and loadEnvironmentChange, src/DiscoveryServerManager.cpp. A text that is missing
-- makes a std::string of a null pointer, which ends the process.
use discovery_server.Prelude.{true, false, none, some, String}
use discovery_server.Prelude.Int.{ℤ, ◌+ℤ◌}
use discovery_server.Outcome.{Outcome, done, aborted}
use discovery_server.Dds.{Dds}
use discovery_server.Events.{snapshot, environment_modification}
use discovery_server.Ids.{s_time, s_someone, s_show_liveliness, s_key}
use discovery_server.Xml.{Xml, bool_attribute}
use discovery_server.Config.{Loading, get_time, push_event, from_s}

module _ (d : Dds) (x : Xml) (read_int : String → ℤ) where
  unfoldable pub load_snapshot : x.Element → Loading d → Outcome (Loading d)
  unfolding from_s get_time push_event bool_attribute
  load_snapshot e l = elim (x.attribute s_time e) [
    | none ↦ done l
    | some time_str ↦ elim (x.get_text e) [
      | none ↦ aborted
      | some description ↦ done (
          push_event d
            (snapshot (record {
              time = get_time d l +ℤ from_s (read_int time_str);
              description = description;
              if_someone = bool_attribute x s_someone true e;
              show_liveliness = bool_attribute x s_show_liveliness false e;
            }))
            l)
    ]
  ]

  unfoldable pub load_environment_change : x.Element → Loading d → Outcome (Loading d)
  unfolding from_s get_time push_event
  load_environment_change e l = elim (x.attribute s_time e) [
    | none ↦ done l
    | some time_str ↦ elim (x.attribute s_key e) [
      | none ↦ done l
      | some key ↦ elim (x.get_text e) [
        | none ↦ aborted
        | some value ↦ done (
            push_event d
              (environment_modification (get_time d l +ℤ from_s (read_int time_str)) key value) l)
      ]
    ]
  ]
