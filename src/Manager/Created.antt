-- ===== src/Manager/Created.antt =====
-- The members of DiscoveryServerManager that events call to reach and to delete what has been
-- created for a participant, src/DiscoveryServerManager.cpp.
use discovery_server.Prelude.{Bool, false, Option, none, some, [], bind_option}
use discovery_server.OrderedSet.{find, emplace, erase, modify}
use discovery_server.Item.{Guid}
use discovery_server.Events.Kinds.{Kind, of_reader, of_writer}
use discovery_server.Manager.{Manager, Pointer, entry_guid, ParticipantCreatedEntityInfo}
use discovery_server.Dds.{Dds}

-- The entry that operator [] of the map makes: all its pointers are null.
abbrev pub no_info : ParticipantCreatedEntityInfo
no_info = record {
  participant = none;
  publisher = none;
  publisher_topic = none;
  publisher_type = none;
  subscriber = none;
  subscriber_topic = none;
  subscriber_type = none;
  registered_topics = [];
}

-- `entity_map[id]`, where it is only read: the entry is there afterwards.
unfoldable pub enter_info : Guid → Manager → Manager
enter_info id m = record m { entity_map = emplace entry_guid (id, no_info) m.entity_map }

abbrev pub pubsub_of : Kind → ParticipantCreatedEntityInfo → Option Pointer
pubsub_of of_reader info = info.subscriber
pubsub_of of_writer info = info.publisher

-- getPubSubEntityFromParticipantGuid: what the entry holds, before or behind it.
unfoldable pub get_pubsub : Kind → Guid → Manager → Option Pointer × Manager
get_pubsub kind id m =
    (bind_option (find entry_guid id m.entity_map) (λ e. pubsub_of kind e.1), enter_info id m)

abbrev pub write_entity_topic :
    Kind → Pointer → Guid × ParticipantCreatedEntityInfo → Guid × ParticipantCreatedEntityInfo
write_entity_topic of_reader t e = (e.0, record (e.1) { subscriber_topic = some t })
write_entity_topic of_writer t e = (e.0, record (e.1) { publisher_topic = some t })

module _ (d : Dds) where
  -- setDomainEntityTopic.
  unfoldable pub set_domain_entity_topic :
      Kind → Option Pointer → Option Pointer → Manager → Manager
  unfolding enter_info
  set_domain_entity_topic kind none t m = m
  set_domain_entity_topic kind (some entity) none m = m
  set_domain_entity_topic kind (some entity) (some t) m =
      let id = d.guid (d.participant_of entity) in
      record m {
        entity_map = modify entry_guid id (write_entity_topic kind t) (enter_info id m).entity_map;
      }

  abbrev delete_from : Kind → Option Pointer → Pointer → d.World → Bool × d.World
  delete_from kind none entity w = (false, w)
  delete_from of_reader (some sub) entity w = d.delete_datareader sub entity w
  delete_from of_writer (some pub') entity w = d.delete_datawriter pub' entity w

  -- deleteDataReader and deleteDataWriter.
  unfoldable pub delete_endpoint :
      Kind → Option Pointer → d.World → Manager → Bool × (d.World × Manager)
  unfolding get_pubsub
  delete_endpoint kind none w m = (false, (w, m))
  delete_endpoint kind (some entity) w m =
      let r = get_pubsub kind (d.guid (d.participant_of entity)) m in
      let s = delete_from kind r.0 entity w in (s.0, (s.1, r.1))

  -- deleteParticipant.
  unfoldable pub delete_participant :
      Option Pointer → d.World → Manager → Bool × (d.World × Manager)
  delete_participant none w m = (false, (w, m))
  delete_participant (some p) w m =
      let m' = record m { entity_map = erase entry_guid (d.guid p) m.entity_map } in
      let s = d.delete_participant p (d.delete_contained_entities p (d.set_listener none p w)).1 in
      (s.0, (s.1, m'))
