-- ===== src/Events/TrackedEntities.antt =====
-- What the events do besides the creation and destruction of participants keeps the participants of
-- the manager, src/DiscoveryServerManager.cpp.
use discovery_server.Prelude.{
  ◌≡◌, refl, subst, Bool, Option, none, some, String, arith, Option-cases, inl, inr,
}
use discovery_server.OrderedSet.{find, emplace, erase, modify}
use discovery_server.OrderedSet.Order.{emplace-Above, erase-Above, modify-Above}
use discovery_server.Outcome.{done}
use discovery_server.Item.{Guid}
use discovery_server.Manager.{Manager, Pointer, entry_guid, ParticipantCreatedEntityInfo}
use discovery_server.Manager.Maps.{
  assign, value_at, add_data_reader, add_data_writer, remove_subscriber, remove_publisher,
}
use discovery_server.Manager.Registry.{assign_new-done}
use discovery_server.Manager.Entities.{
  set_participant_topic, get_participant_topic_by_name, write_topic,
}
use discovery_server.Manager.Created.{
  enter_info, no_info, set_domain_entity_topic, write_entity_topic,
}
use discovery_server.Dds.{Dds}
use discovery_server.Events.Kinds.{Kind, of_reader, of_writer}
use discovery_server.Events.Endpoints.{add_endpoint, remove_endpoint}
use discovery_server.Events.Lives.{assign-IsSorted}
use discovery_server.Events.Tracked.{
  IsTracked, created_in-enter, created_in-modify, with_entities, with_readers, with_writers,
}

module _ (d : Dds) where
  pub enter_info-IsTracked :
      (id : Guid) (m : Manager) → IsTracked d m → IsTracked d (enter_info id m)
  unfolding enter_info
  enter_info-IsTracked id m o =
      with_entities d m o (emplace entry_guid (id, no_info) m.entity_map)
        (emplace-Above entry_guid 0 (id, no_info) m.entity_map (omega arith) o.ordered.entities)
        (λ k. created_in-enter k id m.entity_map o.ordered.entities)

  modified :
      (id : Guid) (f : Guid × ParticipantCreatedEntityInfo → Guid × ParticipantCreatedEntityInfo)
      (m : Manager)
      → ((e : Guid × ParticipantCreatedEntityInfo) → (f e).0 ≡ e.0)
      → ((e : Guid × ParticipantCreatedEntityInfo) → (f e).1.participant ≡ e.1.participant)
      → IsTracked d m
      → IsTracked d (record m { entity_map = modify entry_guid id f m.entity_map })
  modified id f m same keeps o =
      with_entities d m o (modify entry_guid id f m.entity_map)
        (modify-Above entry_guid 0 id f m.entity_map same o.ordered.entities)
        (λ k. created_in-modify k id f m.entity_map same keeps o.ordered.entities)

  pub set_participant_topic-IsTracked :
      (p : Option Guid) (t : Option (String × Pointer)) (m : Manager)
      → IsTracked d m
      → IsTracked d (set_participant_topic p t m)
  unfolding set_participant_topic
  set_participant_topic-IsTracked none t m o = o
  set_participant_topic-IsTracked (some p) none m o = o
  set_participant_topic-IsTracked (some p) (some t) m o =
      elim (Option-cases (find entry_guid p m.entity_map)) [
        | inl e ↦ rw (e, set_participant_topic) o
        | inr (x, e) ↦
            rw (e, set_participant_topic)
              (modified p (write_topic t.0 (some t.1)) m (λ x. refl) (λ x. refl) o)
      ]

  pub get_participant_topic-IsTracked :
      (p : Guid) (name : String) (m : Manager)
      → IsTracked d m
      → IsTracked d (get_participant_topic_by_name (some p) name m).1
  unfolding get_participant_topic_by_name
  get_participant_topic-IsTracked p name m o =
      elim (Option-cases (find entry_guid p m.entity_map)) [
        | inl e ↦ rw (e, get_participant_topic_by_name) o
        | inr (x, e) ↦
            rw (e, get_participant_topic_by_name) (modified p _ m (λ x. refl) (λ x. refl) o)
      ]

  pub add_endpoint-IsTracked :
      (ndebug : Bool) (kind : Kind) (e : Guid × Pointer) (m : Manager) {m' : Manager}
      → IsTracked d m
      → add_endpoint ndebug kind (some e) m ≡ done m'
      → IsTracked d m'
  unfolding add_endpoint add_data_reader add_data_writer
  add_endpoint-IsTracked ndebug of_reader e m o h =
      subst (IsTracked d)
        (assign_new-done ndebug e.0 e.1 m.data_readers (λ es. record m { data_readers = es }) h)
        (with_readers d m o (assign e.0 e.1 m.data_readers)
          (assign-IsSorted e.0 e.1 m.data_readers o.ordered.registry.readers_sorted))
  add_endpoint-IsTracked ndebug of_writer e m o h =
      subst (IsTracked d)
        (assign_new-done ndebug e.0 e.1 m.data_writers (λ es. record m { data_writers = es }) h)
        (with_writers d m o (assign e.0 e.1 m.data_writers)
          (assign-IsSorted e.0 e.1 m.data_writers o.ordered.registry.writers_sorted))

  pub remove_endpoint-IsTracked :
      (kind : Kind) (id : Guid) (m : Manager)
      → IsTracked d m
      → IsTracked d (remove_endpoint kind id m).1
  unfolding remove_endpoint remove_subscriber remove_publisher
  remove_endpoint-IsTracked of_reader id m o = elim (Option-cases (value_at id m.data_readers)) [
    | inl e ↦ rw (e, remove_subscriber) o
    | inr (x, e) ↦
        rw (e, remove_subscriber)
          (with_readers d m o (erase entry_guid id m.data_readers)
            (erase-Above entry_guid 0 id m.data_readers o.ordered.registry.readers_sorted))
  ]
  remove_endpoint-IsTracked of_writer id m o = elim (Option-cases (value_at id m.data_writers)) [
    | inl e ↦ rw (e, remove_publisher) o
    | inr (x, e) ↦
        rw (e, remove_publisher)
          (with_writers d m o (erase entry_guid id m.data_writers)
            (erase-Above entry_guid 0 id m.data_writers o.ordered.registry.writers_sorted))
  ]

  pub set_domain_entity_topic-IsTracked :
      (kind : Kind) (entity t : Option Pointer) (m : Manager)
      → IsTracked d m
      → IsTracked d (set_domain_entity_topic d kind entity t m)
  unfolding set_domain_entity_topic
  set_domain_entity_topic-IsTracked kind none t m o = o
  set_domain_entity_topic-IsTracked kind (some e) none m o = o
  set_domain_entity_topic-IsTracked kind (some e) (some t) m o =
      modified (d.guid (d.participant_of e)) (write_entity_topic kind t)
        (enter_info (d.guid (d.participant_of e)) m) (same kind) (kept kind)
        (enter_info-IsTracked (d.guid (d.participant_of e)) m o)
    where
      same :
          (kind : Kind) (x : Guid × ParticipantCreatedEntityInfo)
          → (write_entity_topic kind t x).0 ≡ x.0
      same of_reader x = refl
      same of_writer x = refl

      kept :
          (kind : Kind) (x : Guid × ParticipantCreatedEntityInfo)
          → (write_entity_topic kind t x).1.participant ≡ x.1.participant
      kept of_reader x = refl
      kept of_writer x = refl
