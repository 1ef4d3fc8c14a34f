-- ===== src/Config/Construction.antt =====
-- The constructor of DiscoveryServerManager and its topic profiles, src/DiscoveryServerManager.cpp. A
-- document is read as an element whose children are the top elements of the file. Fast DDS loads the DDS
-- profiles, and its record of operations has them loaded.
use discovery_server.Prelude.{
  Bool, true, false, not, Option, none, some, List, [], ◌∷◌, String, str_eq, if◌then◌else◌, ℕ,
}
use discovery_server.Prelude.Int.{ℤ}
use discovery_server.Outcome.{Outcome, done, aborted, ◌>>=◌}
use discovery_server.Item.{TimePoint}
use discovery_server.Manager.{Manager}
use discovery_server.Manager.Files.{load_snapshots}
use discovery_server.Dds.{Dds}
use discovery_server.Ids.{
  s_ds, s_ds_snapshots, s_servers, s_server, s_clients, s_client, s_simples, s_simple, s_snapshots,
  s_snapshot, s_file, s_environment, s_change, s_user_shutdown, s_prefix_validation, s_topic,
  s_name,
}
use discovery_server.Xml.{Xml, GuidText, bool_attribute}
use discovery_server.Config.{Loading, TopicDescriptionItem, undefined_topic, profile_name}
use discovery_server.Config.Clients.{load_client}
use discovery_server.Config.Participants.{load_simple}
use discovery_server.Config.Schedules.{load_snapshot, load_environment_change}
use discovery_server.Config.Servers.{map_server_info, load_server}

abbrev profiles_name : String
profiles_name = "profiles"

abbrev data_type : String
data_type = "dataType"

abbrev Profiles : Type 0
Profiles = List (String × TopicDescriptionItem)

unfoldable pub put_profile : String → TopicDescriptionItem → Profiles → Profiles
put_profile name t [] = (name, t) ∷ []
put_profile name t (p ∷ ps) = if str_eq name p.0 then (name, t) ∷ ps else p ∷ put_profile name t ps

unfoldable pub has_profile : String → Profiles → Bool
has_profile name [] = false
has_profile name (p ∷ ps) = if str_eq name p.0 then true else has_profile name ps

module _ (x : Xml) where
  -- fill_topic_description_profile: an element of another name makes it fail, and goes on; one without
  -- a text makes it fail, and stops.
  unfoldable pub fill_topic_description_profile :
      List x.Element → Bool → TopicDescriptionItem → Bool × TopicDescriptionItem
  fill_topic_description_profile [] ret t = (ret, t)
  fill_topic_description_profile (e ∷ es) ret t =
      if str_eq (x.name e) s_name
      then (elim (x.get_text e) [
        | none ↦ (false, t)
        | some text ↦ fill_topic_description_profile es ret (record t { name = text })
      ])
      else if str_eq (x.name e) data_type
      then (elim (x.get_text e) [
        | none ↦ (false, t)
        | some text ↦ fill_topic_description_profile es ret (record t { type_name = text })
      ])
      else fill_topic_description_profile es false t

  -- The loop over the topic profiles, which ends at one that fails. The first of a name counts.
  unfoldable pub store_profiles : List x.Element → Profiles → Profiles
  unfolding fill_topic_description_profile put_profile has_profile
  store_profiles [] ps = ps
  store_profiles (e ∷ es) ps = elim (x.attribute profile_name e) [
    | none ↦ store_profiles es ps
    | some name ↦
        if has_profile name ps
        then store_profiles es ps
        else (let r = fill_topic_description_profile (x.elements e) true undefined_topic in
            let ps' = put_profile name r.1 ps in if r.0 then store_profiles es ps' else ps')
  ]

  -- The children of a name of the first child of another name.
  unfoldable pub under : String → String → x.Element → List x.Element
  under group item e = elim (x.children group e) [ [] ↦ [] | g ∷ gs ↦ x.children item g ]

module _ (d : Dds) (x : Xml) where
  -- A loop of calls of a loader.
  unfoldable pub for_each :
      (x.Element → Loading d → Outcome (Loading d))
      → List x.Element
      → Loading d
      → Outcome (Loading d)
  for_each load [] l = done l
  for_each load (e ∷ es) l = load e l >>= λ l'. for_each load es l'

  abbrev with_manager : (Manager → Manager) → Loading d → Loading d
  with_manager f l = record l { process = record (l.process) { manager = f l.process.manager } }

  unfoldable pub read_profiles : x.Element → Loading d → Loading d
  unfolding store_profiles
  read_profiles child l = elim (x.children profiles_name child) [
    | [] ↦ l
    | p ∷ ps ↦ record l {
      topic_profiles = store_profiles x (x.children s_topic p) l.topic_profiles;
    }
  ]

  -- The attribute for the output file, which turns the validation off.
  unfoldable pub read_output_file : x.Element → Loading d → Loading d
  read_output_file child l = elim (x.children s_snapshots child) [
    | [] ↦ l
    | sn ∷ sns ↦ elim (x.attribute s_file sn) [
      | none ↦ l
      | some file ↦
          with_manager (λ m. record m { snapshots_output_file = file; validate = false }) l
    ]
  ]

  module _ (ndebug has_file : Bool) (read_int : String → ℤ)
      (match_address : String → Option (String × String)) (read_long : String → Option ℕ) where
    -- The changes of the environment, and whether the constructor goes on.
    unfoldable pub read_environment : x.Element → Loading d → Outcome (Bool × Loading d)
    unfolding for_each
    read_environment child l = elim (x.children s_environment child) [
      | [] ↦ done (true, l)
      | e ∷ es ↦
          if has_file
          then (do
            l' ←
                for_each (load_environment_change d x read_int) (x.children s_change e)
                  (record l { process = record (l.process) { environment = none } })
            done (true, l'))
          else done (false, l)
    ]

    -- What follows the servers.
    unfoldable pub read_others : x.Element → Loading d → Outcome (Bool × Loading d)
    unfolding for_each read_output_file read_environment
    read_others child l = do
      l1 ←
          for_each (load_client d ndebug x read_int match_address read_long)
            (under x s_clients s_client child) l
      l2 ← for_each (load_simple d ndebug x read_int) (under x s_simples s_simple child) l1
      l3 ←
          for_each (load_snapshot d x read_int) (under x s_snapshots s_snapshot child)
            (read_output_file child l2)
      read_environment child l3

    -- One DS element. Without servers the constructor ends, if the user is to shut it down.
    unfoldable pub read_child : x.Element → Loading d → Outcome (Bool × Loading d)
    unfolding read_profiles read_others for_each
    read_child child l = elim (x.children s_servers child) [
      | [] ↦
          if l.process.manager.auto_shutdown
          then read_others child (read_profiles child l)
          else done (false, read_profiles child l)
      | servers ∷ others ↦ do
        l1 ← for_each (map_server_info d x) (x.children s_server servers) (read_profiles child l)
        l2 ← for_each (load_server d x ndebug read_int) (x.children s_server servers) l1
        read_others child l2
    ]

    unfoldable pub read_children : List x.Element → Loading d → Outcome (Bool × Loading d)
    unfolding read_child
    read_children [] l = done (true, l)
    read_children (c ∷ cs) l =
        read_child c l >>= λ r. (if r.0 then read_children cs r.1 else done r)

    unfoldable pub read_attributes : x.Element → Manager → Manager
    read_attributes root m = record m {
      validate = true;
      auto_shutdown = not (bool_attribute x s_user_shutdown (not m.auto_shutdown) root);
      enable_prefix_validation =
          bool_attribute x s_prefix_validation m.enable_prefix_validation root;
    }

    -- A file of the configuration.
    unfoldable pub read_config : x.Element → List x.Element → Loading d → Outcome (Loading d)
    unfolding read_attributes read_children
    read_config root roots l =
        read_children (root ∷ roots) (with_manager (read_attributes root) l) >>= λ r.
        done (if r.0 then with_manager (λ m. record m { correctly_created = true }) r.1 else r.1)

    module _ (g : GuidText) (system_clock steady_clock : TimePoint) where
      -- A file of snapshots; correctly_created_ stays false.
      unfoldable pub read_snapshots : x.Element → Loading d → Outcome (Loading d)
      read_snapshots root l =
          elim (load_snapshots x g system_clock steady_clock (some root) l.process.manager) [
            | none ↦ aborted
            | some r ↦
                done (with_manager (λ m. record (r.0) { validate = true; auto_shutdown = true }) l)
          ]

      -- The body of the constructor; `none` is that the file could not be parsed.
      unfoldable pub construct : Option x.Element → Loading d → Outcome (Loading d)
      unfolding read_config read_snapshots
      construct none l = done l
      construct (some doc) l = elim (x.children s_ds doc) [
        | root ∷ roots ↦ read_config root roots l
        | [] ↦ elim (x.children s_ds_snapshots doc) [
          | root ∷ roots ↦ read_snapshots root l
          | [] ↦ done l
        ]
      ]
