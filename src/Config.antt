-- ===== src/Config.antt =====
-- The loaders of the configuration of DiscoveryServerManager, src/DiscoveryServerManager.cpp: servers,
-- clients, simple participants, endpoints, snapshots and changes of the environment.
pub mod Endpoints
pub mod Schedules
pub mod Participants
pub mod Clients
pub mod Servers
pub mod Construction
pub mod Order
pub mod LateServer
use discovery_server.Prelude.{
  ℕ, suc, ◌+◌, ◌*◌, Option, none, some, List, [], ◌∷◌, ◌++◌, String, str_eq, if◌then◌else◌,
  from_option, map_option,
}
use discovery_server.Prelude.Int.{ℤ, pos, ◌+ℤ◌, ◌-ℤ◌, pos_part, neg_part, sub_ℕ}
use discovery_server.Item.{TimePoint}
use discovery_server.Manager.{Manager, Pointer, GuidMap}
use discovery_server.Dds.{Dds}
use discovery_server.Events.{Event, Process, Store}
use discovery_server.Xml.{Xml}

-- The names of attributes that DSxmlparser declares.
abbrev pub profile_name : String
profile_name = "profile_name"

abbrev pub topic : String
topic = "topic"

pub record TopicDescriptionItem : Type 0 where
  pub name : String
  pub type_name : String

-- The constructor with no arguments.
abbrev pub undefined_topic : TopicDescriptionItem
undefined_topic = record { name = "UNDEF"; type_name = "UNDEF" }

-- The process while its configuration is loaded, with the member `events` of the manager, and the
-- topics of the profiles by their names and the locators of the servers.
pub record Loading (d : Dds) : Type 0 where
  pub process : Process d
  pub queue : List Pointer
  pub topic_profiles : List (String × TopicDescriptionItem)
  pub server_locators : GuidMap d.Locators

-- A pointer to a new object: behind those of all other events.
unfoldable pub new_pointer : {Q : Type 0} → Store Q → Pointer
new_pointer [] = 1
new_pointer (e ∷ []) = suc e.0
new_pointer (e ∷ f ∷ es) = new_pointer (f ∷ es)

-- std::map::at: an exception, which is caught, leaves the topic undefined.
unfoldable pub profile_at : String → List (String × TopicDescriptionItem) → TopicDescriptionItem
profile_at name [] = undefined_topic
profile_at name (e ∷ es) = if str_eq name e.0 then e.1 else profile_at name es

-- Some seconds as a duration.
unfoldable pub from_s : ℤ → ℤ
from_s n = sub_ℕ (pos_part n * 1000000000) (neg_part n * 1000000000)

module _ (d : Dds) where
  -- getTime.
  unfoldable pub get_time : Loading d → TimePoint
  get_time l = l.process.manager.state.time

  -- events.push_back of a new event.
  unfoldable pub push_event : Event d.Qos → Loading d → Loading d
  push_event e l =
      let p = new_pointer l.process.events in
      record l {
        process = record (l.process) { events = l.process.events ++ (p, e) ∷ [] };
        queue = l.queue ++ p ∷ [];
      }

  -- A time in seconds from the start that an attribute holds, where it is there; `read_int` is how
  -- std::istringstream reads an int.
  module _ (x : Xml) (read_int : String → ℤ) where
    unfoldable pub time_attribute : String → TimePoint → x.Element → TimePoint → TimePoint
    unfolding from_s
    time_attribute k start e old =
        from_option (map_option (λ s. start +ℤ from_s (read_int s)) (x.attribute k e)) old
