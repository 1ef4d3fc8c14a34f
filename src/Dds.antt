-- ===== src/Dds.antt =====
-- What the events of include/LateJoiner.h and src/LateJoiner.cpp use of Fast DDS. Its own state is
-- that of a world which each call takes and gives back. An entity is a pointer, and where a call
-- may fail, `none` is the null pointer and `false` is a code that is not RETCODE_OK.
use discovery_server.Prelude.{ℕ, List, Bool, Option, String}
use discovery_server.Item.{Guid}
use discovery_server.Manager.{Pointer}

-- DiscoveryProtocol, as far as it is told apart.
pub data Protocol : Type 0 where
  simple : Protocol
  client : Protocol
  super_client : Protocol
  server : Protocol
  backup : Protocol
  no_discovery : Protocol

-- The descriptors of transports, as far as they are told apart: those of TCP have the ports to listen
-- on, and that of TCPv4 the WAN address, if one is set.
pub data Transport : Type 0 where
  tcp_v4 : List ℕ → Option String → Transport
  tcp_v6 : List ℕ → Transport
  not_tcp : ℕ → Transport

pub record Dds : Type 1 where
  pub World : Type 0
  -- DomainParticipantQos.
  pub Qos : Type 0
  -- guid of an entity, its prefix, and the participant behind get_publisher or get_subscriber.
  pub guid : Pointer → Guid
  pub prefix : Guid → Guid
  pub participant_of : Pointer → Pointer
  -- DomainParticipantFactory: create_participant in domain 42 with the manager as listener, and
  -- delete_participant.
  pub create_participant : Qos → World → Option Pointer × World
  pub delete_participant : Pointer → World → Bool × World
  -- DomainParticipant.
  pub create_publisher : Pointer → World → Option Pointer × World
  pub create_subscriber : Pointer → World → Option Pointer × World
  pub set_listener : Option Pointer → Pointer → World → World
  pub delete_contained_entities : Pointer → World → Bool × World
  -- TypeSupport::register_type of HelloWorld.
  pub register_type : Pointer → World → World
  pub create_topic : Pointer → String → String → World → Option Pointer × World
  pub create_topic_with_profile :
      Pointer → String → String → String → World → Option Pointer × World
  -- Publisher and Subscriber; the topic may be null.
  pub create_datawriter : Pointer → Option Pointer → World → Option Pointer × World
  pub create_datawriter_with_profile :
      Pointer → Option Pointer → String → World → Option Pointer × World
  pub delete_datawriter : Pointer → Pointer → World → Bool × World
  pub create_datareader : Pointer → Option Pointer → World → Option Pointer × World
  pub create_datareader_with_profile :
      Pointer → Option Pointer → String → World → Option Pointer × World
  pub delete_datareader : Pointer → Pointer → World → Bool × World
  -- The QoS of participants: the profiles by name, and the members that are read or written.
  pub default_qos : Qos
  pub participant_profile : String → Option Qos
  pub discovery_protocol : Qos → Protocol
  pub set_name : String → Qos → Qos
  pub user_transports : Qos → List Transport
  pub set_user_transports : List Transport → Qos → Qos
  -- Only UDP in place of the transports that are built in.
  pub udp_only : Qos → Qos
  -- wire_protocol().prefix, what a stream reads over an old prefix and whether it could, the unknown
  -- prefix, and the GUID of the participant of a prefix.
  pub qos_prefix : Qos → Guid
  pub set_prefix : Guid → Qos → Qos
  pub read_prefix : String → Guid → Bool × Guid
  pub unknown_prefix : Guid
  pub participant_guid : Guid → Guid
  -- The two lists of metatraffic locators, for multicast and unicast.
  pub Locators : Type 0
  pub no_locators : Locators
  pub are_no_locators : Locators → Bool
  pub metatraffic_locators : Qos → Locators
  pub set_metatraffic_locators : Locators → Qos → Qos
