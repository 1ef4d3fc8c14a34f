-- ===== src/Manager/Entities.antt =====
-- The map of what DiscoveryServerManager has created for each participant,
-- src/DiscoveryServerManager.cpp. A participant or a topic that is passed in is `none` where its
-- pointer is null, and else its GUID or its name.
use discovery_server.Prelude.{
  ◌≡◌, refl, ap, ◌∙◌, ◌&&◌, Option, none, some, List, [], ◌∷◌, String, arith, ◌==◌, str_eq, eq_iff,
  if◌then◌else◌, Option-cases, inl, inr, bind_option,
}
use discovery_server.OrderedSet.{find, modify}
use discovery_server.OrderedSet.Order.{IsSorted}
use discovery_server.OrderedSet.Lookup.{find-modify, find-key}
use discovery_server.Item.{Guid}
use discovery_server.Manager.{Manager, Pointer, entry_guid, ParticipantCreatedEntityInfo}
use discovery_server.Manager.Maps.{assign}

abbrev Topics : Type 0
Topics = List (String × Option Pointer)

-- What `map[name]` reads: an entry that it has to make is null.
unfoldable pub topic_at : String → Topics → Option Pointer
topic_at name [] = none
topic_at name (e ∷ es) = if str_eq name e.0 then e.1 else topic_at name es

-- `map[name] = t`.
unfoldable pub set_topic : String → Option Pointer → Topics → Topics
set_topic name t [] = (name, t) ∷ []
set_topic name t (e ∷ es) = if str_eq name e.0 then (name, t) ∷ es else e ∷ set_topic name t es

unfoldable pub set_participant_info : Guid → ParticipantCreatedEntityInfo → Manager → Manager
unfolding assign
set_participant_info guid info m = record m { entity_map = assign guid info m.entity_map }

abbrev pub write_topic :
    String
    → Option Pointer
    → Guid × ParticipantCreatedEntityInfo
    → Guid × ParticipantCreatedEntityInfo
write_topic name t e =
    (e.0, record (e.1) { registered_topics = set_topic name t e.1.registered_topics })

unfoldable pub set_participant_topic : Option Guid → Option (String × Pointer) → Manager → Manager
unfolding set_topic
set_participant_topic none t m = m
set_participant_topic (some p) none m = m
set_participant_topic (some p) (some t) m = elim (find entry_guid p m.entity_map) [
  | none ↦ m
  | some e ↦ record m { entity_map = modify entry_guid p (write_topic t.0 (some t.1)) m.entity_map }
]

-- The look-up itself enters a null topic under a name that is new.
unfoldable pub get_participant_topic_by_name :
    Option Guid → String → Manager → Option Pointer × Manager
unfolding set_topic topic_at
get_participant_topic_by_name none name m = (none, m)
get_participant_topic_by_name (some p) name m = elim (find entry_guid p m.entity_map) [
  | none ↦ (none, m)
  | some e ↦
      let t = topic_at name e.1.registered_topics in
      (t, record m { entity_map = modify entry_guid p (write_topic name t) m.entity_map })
]

topic_at-set_topic :
    (k name : String) (t : Option Pointer) (ts : Topics)
    → topic_at k (set_topic name t ts) ≡ (if str_eq k name then t else topic_at k ts)
unfolding topic_at set_topic
topic_at-set_topic k name t [] = refl
topic_at-set_topic k name t (e ∷ es) =
    ground (arith, topic_at-set_topic k name t es, eq_iff k name, eq_iff name e.0, eq_iff k e.0)

-- What getParticipantTopicByName returns.
abbrev pub topic_of : Guid → String → Manager → Option Pointer
topic_of p name m = (get_participant_topic_by_name (some p) name m).0

topic_of-find :
    (p : Guid) (name : String) (m : Manager)
    → topic_of p name m
      ≡ bind_option (find entry_guid p m.entity_map) (λ e. topic_at name e.1.registered_topics)
unfolding get_participant_topic_by_name
topic_of-find p name m = ground arith

topic_of-modify :
    (k p : Guid) (name name' : String) (t : Option Pointer) (m : Manager)
    {e : Guid × ParticipantCreatedEntityInfo}
    → IsSorted entry_guid m.entity_map
    → find entry_guid p m.entity_map ≡ some e
    → topic_of k name'
        (record m { entity_map = modify entry_guid p (write_topic name t) m.entity_map })
      ≡ (if p == k && str_eq name' name then t else topic_of k name' m)
topic_of-modify k p name name' t m {e} s known = ground (
  arith,
  topic_of-find k name' m,
  topic_of-find k name'
      (record m { entity_map = modify entry_guid p (write_topic name t) m.entity_map }),
  find-modify entry_guid k p 0 (write_topic name t) m.entity_map (λ x. refl) s,
  topic_at-set_topic name' name t e.1.registered_topics,
  find-key entry_guid p m.entity_map known,
)

set_participant_topic_found :
    (p : Guid) (name : String) (t : Pointer) (m : Manager) {e : Guid × ParticipantCreatedEntityInfo}
    → find entry_guid p m.entity_map ≡ some e
    → set_participant_topic (some p) (some (name, t)) m
      ≡ record m { entity_map = modify entry_guid p (write_topic name (some t)) m.entity_map }
unfolding set_participant_topic
set_participant_topic_found p name t m known = rw (known, set_participant_topic) refl

get_participant_topic_found :
    (p : Guid) (name : String) (m : Manager) {e : Guid × ParticipantCreatedEntityInfo}
    → find entry_guid p m.entity_map ≡ some e
    → (get_participant_topic_by_name (some p) name m).1 ≡ record m {
      entity_map =
          modify entry_guid p (write_topic name (topic_at name e.1.registered_topics)) m.entity_map;
    }
unfolding get_participant_topic_by_name
get_participant_topic_found p name m known = rw (known, get_participant_topic_by_name) refl

get_participant_topic_absent :
    (p : Guid) (name : String) (m : Manager)
    → find entry_guid p m.entity_map ≡ none
    → (get_participant_topic_by_name (some p) name m).1 ≡ m
unfolding get_participant_topic_by_name
get_participant_topic_absent p name m unknown = rw (unknown, get_participant_topic_by_name) refl

-- Where the map of created entities is in GUID order and has the participant, setParticipantTopic
-- registers the topic: getParticipantTopicByName then returns it under its name, and what it
-- returned before under other names and for other participants.
pub topic_of-set_participant_topic :
    (k p : Guid) (name name' : String) (t : Pointer) (m : Manager)
    {e : Guid × ParticipantCreatedEntityInfo}
    → IsSorted entry_guid m.entity_map
    → find entry_guid p m.entity_map ≡ some e
    → topic_of k name' (set_participant_topic (some p) (some (name, t)) m)
      ≡ (if p == k && str_eq name' name then some t else topic_of k name' m)
topic_of-set_participant_topic k p name name' t m s known =
    ap (topic_of k name') (set_participant_topic_found p name t m known)
    ∙ topic_of-modify k p name name' (some t) m s known

-- With the map of created entities in GUID order, getParticipantTopicByName may enter a null topic,
-- but no later call, for any participant and name, returns anything else than before.
pub topic_of-get_participant_topic_by_name :
    (k p : Guid) (name name' : String) (m : Manager)
    → IsSorted entry_guid m.entity_map
    → topic_of k name' (get_participant_topic_by_name (some p) name m).1 ≡ topic_of k name' m
topic_of-get_participant_topic_by_name k p name name' m s =
    elim (Option-cases (find entry_guid p m.entity_map)) [
      | inl e ↦ ap (topic_of k name') (get_participant_topic_absent p name m e)
      | inr (x, e) ↦
          ap (topic_of k name') (get_participant_topic_found p name m e)
          ∙ topic_of-modify k p name name' (topic_at name x.1.registered_topics) m s e
          ∙ ground (arith, topic_of-find k name' m, eq_iff name' name, e)
    ]
