-- ===== src/Config/Participants.antt =====
-- What the loaders of participants share, and loadSimple, src/DiscoveryServerManager.cpp.
use discovery_server.Prelude.{
  Bool, Option, none, some, List, [], ◌∷◌, String, if◌then◌else◌, from_option, map_option,
}
use discovery_server.Prelude.Int.{ℤ, eqb_ℤ}
use discovery_server.Outcome.{Outcome, done, ◌>>=◌}
use discovery_server.Item.{Guid, TimePoint}
use discovery_server.Manager.{Pointer}
use discovery_server.Dds.{Dds, Protocol, simple}
use discovery_server.Events.Kinds.{Kind, of_reader, of_writer}
use discovery_server.Events.{
  Role, as_simple, DelayedParticipantCreation, participant_creation, participant_destruction,
  unknown,
}
use discovery_server.Events.Participants.{create_participant}
use discovery_server.Ids.{s_creation_time, s_removal_time, s_name, s_publisher, s_subscriber}
use discovery_server.Xml.{Xml}
use discovery_server.Config.{
  Loading, profile_name, new_pointer, get_time, push_event, time_attribute,
}
use discovery_server.Config.Endpoints.{load_endpoint}

-- The GUID of a participant, the event of its creation where it is created late, and the state.
pub record Placed (d : Dds) : Type 0 where
  pub guid : Guid
  pub creation_event : Option Pointer
  pub loading : Loading d

module _ (d : Dds) (ndebug : Bool) where
  abbrev pub new_creation :
      TimePoint → d.Qos → Role → Option Pointer → DelayedParticipantCreation d.Qos
  new_creation time qos role removal = record {
    time = time;
    qos = qos;
    role = role;
    removal_event = removal;
    participant_guid = unknown;
  }

  -- The event of the participant's removal, where that is not at the start.
  unfoldable pub push_destruction : TimePoint → Guid → Loading d → Option Pointer × Loading d
  push_destruction removal_time id l = if eqb_ℤ removal_time (get_time d l) then (none, l) else (
    some (new_pointer l.process.events),
    push_event d (participant_destruction removal_time id) l,
  )

  -- The creation, at once or as an event. An event that runs at once stands in no store, so its own
  -- pointer is a new one; the participant then tells its GUID.
  unfoldable pub place_participant :
      TimePoint → d.Qos → Role → Option Pointer → Guid → Loading d → Outcome (Placed d)
  place_participant time qos role removal id l =
      if eqb_ℤ time (get_time d l)
      then (create_participant d ndebug (new_pointer l.process.events)
            (new_creation time qos role removal) l.process
          >>= λ r. done (record {
            guid = from_option (map_option d.guid (d.create_participant qos l.process.world).0) id;
            creation_event = none;
            loading = record l { process = r };
          }))
      else done (record {
        guid = id;
        creation_event = some (new_pointer l.process.events);
        loading = push_event d (participant_creation (new_creation time qos role removal)) l;
      })

  module _ (x : Xml) (read_int : String → ℤ) where
    -- The loop over the endpoints of one kind.
    unfoldable pub load_endpoints :
        Kind → Guid → Option Pointer → List x.Element → Loading d → Outcome (Loading d)
    load_endpoints kind id owner [] l = done l
    load_endpoints kind id owner (e ∷ es) l =
        load_endpoint d ndebug x read_int kind id e owner none l >>= λ l'.
        load_endpoints kind id owner es l'

    unfoldable pub load_all_endpoints :
        Guid → Option Pointer → x.Element → Loading d → Outcome (Loading d)
    load_all_endpoints id owner e l = do
      l' ← load_endpoints of_writer id owner (x.children s_publisher e) l
      load_endpoints of_reader id owner (x.children s_subscriber e) l'

    unfoldable pub creation_time : x.Element → Loading d → TimePoint
    unfolding time_attribute
    creation_time e l = time_attribute d x read_int s_creation_time (get_time d l) e (get_time d l)

    unfoldable pub removal_time : x.Element → Loading d → TimePoint
    unfolding time_attribute
    removal_time e l = time_attribute d x read_int s_removal_time (get_time d l) e (get_time d l)

    -- The end of loadClient and of loadSimple, once the QoS is known.
    unfoldable pub load_with_qos : Role → d.Qos → x.Element → Loading d → Outcome (Loading d)
    unfolding push_destruction place_participant load_all_endpoints
    load_with_qos role qos e l =
        let id = d.participant_guid (d.qos_prefix qos) in
        let removal = push_destruction (removal_time e l) id l in
        do
          placed ← place_participant (creation_time e l) qos role removal.0 id removal.1
          load_all_endpoints placed.guid placed.creation_event e placed.loading

    unfoldable pub with_name : x.Element → d.Qos → d.Qos
    with_name e qos = from_option (map_option (λ n. d.set_name n qos) (x.attribute s_name e)) qos

    abbrev if_simple : Protocol → Outcome (Loading d) → Loading d → Outcome (Loading d)
    if_simple simple next l = next
    if_simple other next l = done l

    -- The QoS of the profile, if one is named; a profile that is not there, or is for another
    -- protocol, ends the loading of this participant.
    unfoldable pub load_simple : x.Element → Loading d → Outcome (Loading d)
    unfolding load_with_qos with_name
    load_simple e l = elim (x.attribute profile_name e) [
      | none ↦ load_with_qos as_simple (with_name e d.default_qos) e l
      | some name ↦ elim (d.participant_profile name) [
        | none ↦ done l
        | some qos ↦
            if_simple (d.discovery_protocol qos) (load_with_qos as_simple (with_name e qos) e l) l
      ]
    ]
