-- ===== src/Manager/Termination.antt =====
-- onTerminate of DiscoveryServerManager, and setDomainEntityType, src/DiscoveryServerManager.cpp.
use discovery_server.Prelude.{
  ◌≡◌, refl, ap, sym, ◌∙◌, Bool, true, false, Option, none, some, [], ◌∷◌, if◌then◌else◌,
  Bool-cases, inl, inr,
}
use discovery_server.OrderedSet.{modify}
use discovery_server.Item.{Guid}
use discovery_server.Manager.{Manager, Pointer, GuidMap, entry_guid, ParticipantCreatedEntityInfo}
use discovery_server.Manager.Created.{enter_info}
use discovery_server.Dds.{Dds}
use discovery_server.Events.Kinds.{Kind, of_reader, of_writer}
use discovery_server.Events.{Process}

abbrev write_entity_type :
    Kind → Pointer → Guid × ParticipantCreatedEntityInfo → Guid × ParticipantCreatedEntityInfo
write_entity_type of_reader t e = (e.0, record (e.1) { subscriber_type = some t })
write_entity_type of_writer t e = (e.0, record (e.1) { publisher_type = some t })

-- setDomainEntityType of a subscriber or a publisher, with the GUID of its participant.
unfoldable pub set_domain_entity_type : Kind → Option Guid → Option Pointer → Manager → Manager
unfolding enter_info
set_domain_entity_type kind none t m = m
set_domain_entity_type kind (some id) none m = m
set_domain_entity_type kind (some id) (some t) m = record m {
  entity_map = modify entry_guid id (write_entity_type kind t) (enter_info id m).entity_map;
}

module _ (d : Dds) where
  -- The loop over a map of participants; what the calls return is only logged.
  unfoldable pub delete_all : GuidMap Pointer → d.World → d.World
  delete_all [] w = w
  delete_all (e ∷ es) w =
      delete_all es
        (d.delete_participant e.1 (d.delete_contained_entities e.1 (d.set_listener none e.1 w)).1).1

  -- The clients first and the servers last. The maps of participants keep their entries.
  unfoldable pub end_process : Process d → Process d
  unfolding delete_all
  end_process r = record r {
    world =
        delete_all r.manager.servers
          (delete_all r.manager.simples (delete_all r.manager.clients r.world));
    manager = record (r.manager) {
      no_callbacks = true;
      entity_map = [];
      data_readers = [];
      data_writers = [];
    };
    events = [];
  }

  unfoldable pub on_terminate : Process d → Process d
  on_terminate r = if r.manager.no_callbacks then r else end_process r

  if_ended :
      (r : Process d) (b : Bool)
      → r.manager.no_callbacks ≡ b
      → on_terminate r ≡ (if b then r else end_process r)
  unfolding on_terminate
  if_ended r b e = ap (λ c. if c then r else end_process r) e

  -- onTerminate is idempotent: a second call deletes no participant again.
  pub on_terminate_idem : (r : Process d) → on_terminate (on_terminate r) ≡ on_terminate r
  unfolding end_process
  on_terminate_idem r = elim (Bool-cases r.manager.no_callbacks) [
    | inl e ↦ ap on_terminate (if_ended r true e)
    | inr e ↦
        ap on_terminate (if_ended r false e)
        ∙ if_ended (end_process r) true refl
        ∙ sym (if_ended r false e)
  ]
