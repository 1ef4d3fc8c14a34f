-- ===== src/Config/Servers.antt =====
-- MapServerInfo and loadServer, src/DiscoveryServerManager.cpp.
use discovery_server.Prelude.{
  Bool, true, false, not, ◌&&◌, Option, none, some, String, if◌then◌else◌, from_option, map_option,
  str_eq, ◌==◌, is_none,
}
use discovery_server.Prelude.Int.{ℤ}
use discovery_server.OrderedSet.{find, emplace}
use discovery_server.Outcome.{Outcome, done, aborted, assert_then, ◌>>=◌}
use discovery_server.Item.{Guid}
use discovery_server.Manager.{entry_guid}
use discovery_server.Manager.Maps.{assign, value_at}
use discovery_server.Dds.{Dds, Protocol, server, backup}
use discovery_server.Events.{as_server}
use discovery_server.Xml.{Xml}
use discovery_server.Config.{Loading, profile_name}
use discovery_server.Config.Participants.{
  push_destruction, place_participant, load_all_endpoints, creation_time, removal_time, with_name,
}

abbrev pub prefix_attribute : String
prefix_attribute = "prefix"

abbrev is_server_protocol : Protocol → Bool
is_server_protocol server = true
is_server_protocol backup = true
is_server_protocol other = false

module _ (d : Dds) (x : Xml) where
  -- The prefix of a server: that of its attribute, or else that of its profile.
  unfoldable pub server_prefix : x.Element → d.Qos → Guid
  server_prefix e qos =
      from_option
        (map_option (λ s. (d.read_prefix s d.unknown_prefix).1) (x.attribute prefix_attribute e))
        (d.qos_prefix qos)

  -- A missing name of the profile is a std::string made of a null pointer.
  unfoldable pub map_server_info : x.Element → Loading d → Outcome (Loading d)
  unfolding server_prefix assign
  map_server_info e l = elim (x.attribute profile_name e) [
    | none ↦ aborted
    | some name ↦ elim (d.participant_profile name) [
      | none ↦ done l
      | some qos ↦
          if str_eq name ""
          then done l
          else if server_prefix e qos == d.unknown_prefix
          then done l
          else done (record l {
            server_locators =
                assign (d.participant_guid (server_prefix e qos)) (d.metatraffic_locators qos)
                  l.server_locators;
          })
    ]
  ]

  -- What loadServer reads over the prefix of the profile, and whether it goes on.
  unfoldable pub read_server_prefix : x.Element → d.Qos → Option d.Qos
  read_server_prefix e qos = elim (x.attribute prefix_attribute e) [
    | none ↦ some qos
    | some s ↦
        let r = d.read_prefix s (d.qos_prefix qos) in
        if not r.0 && r.1 == d.unknown_prefix then none else some (d.set_prefix r.1 qos)
  ]

  -- The locators of the map go before those of the profile; the look-up itself enters an entry.
  unfoldable pub with_locators : Guid → d.Qos → Loading d → d.Qos × Loading d
  unfolding value_at
  with_locators id qos l =
      let lists = from_option (value_at id l.server_locators) d.no_locators in
      (
        if d.are_no_locators lists then qos else d.set_metatraffic_locators lists qos,
        record l { server_locators = emplace entry_guid (id, d.no_locators) l.server_locators },
      )

  module _ (ndebug : Bool) (read_int : String → ℤ) where
    -- The events and the endpoints, which are not told of the event of the server's creation.
    unfoldable pub place_server : Guid → d.Qos → x.Element → Loading d → Outcome (Loading d)
    place_server id qos e l = do
      placed ←
          place_participant d ndebug (creation_time d ndebug x read_int e l) qos as_server none id l
      let removal =
          push_destruction d ndebug (removal_time d ndebug x read_int e l) id placed.loading
      load_all_endpoints d ndebug x read_int id none e removal.1

    -- loadServer behind the prefix.
    unfoldable pub load_prefixed : d.Qos → x.Element → Loading d → Outcome (Loading d)
    unfolding with_locators place_server
    load_prefixed qos e l =
        let id = d.participant_guid (d.qos_prefix qos) in
        if l.process.manager.enable_prefix_validation
          && not (is_none (find entry_guid id l.process.manager.servers))
        then done l
        else (let r = with_locators id qos l in
            let qos' = if l.process.manager.shared_memory_off then d.udp_only r.0 else r.0 in
            assert_then ndebug (is_server_protocol (d.discovery_protocol qos')) r.1 >>= λ l'.
            place_server id qos' e l')

    unfoldable pub load_server : x.Element → Loading d → Outcome (Loading d)
    unfolding read_server_prefix load_prefixed
    load_server e l = elim (x.attribute profile_name e) [
      | none ↦ done l
      | some name ↦ elim (d.participant_profile name) [
        | none ↦ done l
        | some qos ↦
            if str_eq name ""
            then done l
            else elim (read_server_prefix e (with_name d ndebug x read_int e qos)) [
              | none ↦ done l
              | some qos' ↦ load_prefixed qos' e l
            ]
      ]
    ]
