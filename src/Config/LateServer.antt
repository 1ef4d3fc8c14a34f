-- ===== src/Config/LateServer.antt =====
-- The endpoints of a server that is created late, src/DiscoveryServerManager.cpp.
use discovery_server.Prelude.{
  ◌≡◌, refl, ap, ◌∙◌, Bool, false, none, some, List, [], ◌∷◌, ◌++◌, String, arith, from_option, All,
}
use discovery_server.Prelude.Int.{ℤ, eqb_ℤ}
use discovery_server.OrderedSet.Order.{IsSorted, emplace-Above}
use discovery_server.Outcome.{Outcome, done, ◌>>=◌}
use discovery_server.Item.{Guid}
use discovery_server.Manager.{entry_guid}
use discovery_server.Manager.Maps.{get_participant}
use discovery_server.Manager.Created.{enter_info, no_info}
use discovery_server.Dds.{Dds}
use discovery_server.Events.Kinds.{Kind, of_reader, of_writer}
use discovery_server.Events.{DelayedEndpointCreation, participant_creation, as_server}
use discovery_server.Events.Endpoints.{participant_for}
use discovery_server.Events.Orphans.{create_without, get_participant-enter_info}
use discovery_server.Ids.{s_creation_time, s_removal_time, s_publisher, s_subscriber}
use discovery_server.Xml.{Xml}
use discovery_server.Config.{
  Loading, profile_name, topic, new_pointer, profile_at, get_time, push_event, time_attribute,
}
use discovery_server.Config.Endpoints.{
  EndpointPlan, matched_times, push_removal, create_or_push, planned_times, load_with_topic,
  load_planned, load_endpoint,
}
use discovery_server.Config.Participants.{
  Placed, push_destruction, place_participant, new_creation, load_endpoints, load_all_endpoints,
  creation_time, removal_time,
}
use discovery_server.Config.Servers.{place_server}
use discovery_server.Config.Order.{eqb_ℤ_refl}

-- An endpoint with a topic and no times of its own.
pub record IsTimeless (x : Xml) (e : x.Element) : Type 0 where
  pub no_creation : x.attribute s_creation_time e ≡ none
  pub no_removal : x.attribute s_removal_time e ≡ none
  pub topic_name : String
  pub named : x.attribute topic e ≡ some topic_name

module _ (d : Dds) (id : Guid) where
  -- The manager does not know the participant.
  pub record IsUnknown (l : Loading d) : Type 0 where
    pub nobody : get_participant id l.process.manager ≡ none
    pub sorted : IsSorted entry_guid l.process.manager.entity_map

  abbrev entered : Loading d → Loading d
  entered l = record l {
    process = record (l.process) { manager = enter_info id l.process.manager };
  }

  entered-IsUnknown : (l : Loading d) → IsUnknown l → IsUnknown (entered l)
  unfolding enter_info
  entered-IsUnknown l u = record {
    nobody = get_participant-enter_info id id l.process.manager u.sorted u.nobody ∙ u.nobody;
    sorted =
        emplace-Above entry_guid 0 (id, no_info) l.process.manager.entity_map (omega arith)
          u.sorted;
  }

  module _ (ndebug : Bool) (x : Xml) (read_int : String → ℤ) (kind : Kind) where
    abbrev at_start : Loading d → EndpointPlan
    at_start l = record { creation_time = get_time d l; removal_time = get_time d l }

    -- The event that is made of an endpoint of no late participant.
    abbrev prompt : x.Element → Loading d → String → DelayedEndpointCreation
    prompt e l topic_name =
        let description = profile_at topic_name l.topic_profiles in
        record {
          time = get_time d l;
          topic_name = description.name;
          type_name = description.type_name;
          topic_profile_name = topic_name;
          endpoint_profile_name = from_option (x.attribute profile_name e) "";
          participant_guid = id;
          linked_destruction_event = none;
          owner_event = none;
        }

    no_participant :
        (e : x.Element) (l : Loading d) (t : String)
        → IsUnknown l
        → participant_for d
            (get_participant id l.process.manager)
            (prompt e l t)
            l.process.events
            (enter_info id l.process.manager)
          ≡ none
    unfolding participant_for
    no_participant e l t u =
        ap
          (λ g.
            participant_for d g (prompt e l t) l.process.events (enter_info id l.process.manager))
          u.nobody

    created_nowhere :
        (e : x.Element) (l : Loading d) (t : String)
        → IsUnknown l
        → create_or_push d ndebug kind (prompt e l t) l ≡ done (entered l)
    unfolding create_or_push
    created_nowhere e l t u = rw (eqb_ℤ_refl (get_time d l)) (
        ap (λ o. o >>= λ r. done (record l { process = r }))
          (create_without d ndebug kind (prompt e l t) l.process (no_participant e l t u)))

    not_pushed : (l : Loading d) → push_removal d kind (get_time d l) l ≡ (none, l)
    unfolding push_removal
    not_pushed l = rw (eqb_ℤ_refl (get_time d l)) refl

    prompt_times :
        (e : x.Element) (l : Loading d)
        → IsTimeless x e
        → planned_times d ndebug x read_int e l (at_start l) ≡ at_start l
    unfolding planned_times time_attribute
    prompt_times e l h = rw (h.no_creation, h.no_removal) refl

    loaded_nowhere :
        (e : x.Element) (l : Loading d)
        → IsTimeless x e
        → IsUnknown l
        → load_endpoint d ndebug x read_int kind id e none none l ≡ done (entered l)
    unfolding load_endpoint matched_times load_planned load_with_topic
    loaded_nowhere e l h u =
        ap (λ plan. load_planned d ndebug x read_int kind id e none plan l) (prompt_times e l h)
        ∙ ap
            (λ r.
              load_with_topic d ndebug x read_int kind id e none (get_time d l) r.0
                (x.attribute topic e) r.1)
            (not_pushed l)
        ∙ ap (λ t. load_with_topic d ndebug x read_int kind id e none (get_time d l) none t l)
            h.named
        ∙ created_nowhere e l h.topic_name u

    none_created :
        (es : List x.Element) (l : Loading d)
        → All (IsTimeless x) es
        → IsUnknown l
        → (l' : Loading d) × (load_endpoints d ndebug x read_int kind id none es l ≡ done l')
          × IsUnknown l'
          × (l'.process.world ≡ l.process.world)
          × (l'.process.events ≡ l.process.events)
          × (l'.queue ≡ l.queue)
    unfolding load_endpoints
    none_created [] l h u = (l, refl, u, refl, refl, refl)
    none_created (e ∷ es) l h u =
        let (l', f, u', w, v, q) = none_created es (entered l) h.1 (entered-IsUnknown l u) in
        (
          l',
          ap (λ o. o >>= λ l''. load_endpoints d ndebug x read_int kind id none es l'')
                (loaded_nowhere e l h.0 u)
              ∙ f,
          u',
          w,
          v,
          q,
        )

module _ (d : Dds) (ndebug : Bool) (x : Xml) (read_int : String → ℤ) (id : Guid) (qos : d.Qos)
    (e : x.Element) (l : Loading d) where
  -- The state behind the queueing of the server's creation.
  abbrev queued : Loading d
  queued =
      push_event d
        (participant_creation
          (new_creation d ndebug (creation_time d ndebug x read_int e l) qos as_server none))
        l

  queued-IsUnknown : IsUnknown d id l → IsUnknown d id queued
  unfolding push_event
  queued-IsUnknown u = record { nobody = u.nobody; sorted = u.sorted }

  placed_late :
      eqb_ℤ (creation_time d ndebug x read_int e l) (get_time d l) ≡ false
      → place_participant d ndebug (creation_time d ndebug x read_int e l) qos as_server none id l
        ≡ done (record {
          guid = id;
          creation_event = some (new_pointer l.process.events);
          loading = queued;
        })
  unfolding place_participant
  placed_late h = rw h refl

  stays :
      removal_time d ndebug x read_int e l ≡ get_time d l
      → push_destruction d ndebug (removal_time d ndebug x read_int e l) id queued ≡ (none, queued)
  unfolding push_destruction push_event get_time
  stays h = rw (h, eqb_ℤ_refl (get_time d l)) refl

  abbrev after_placed : Placed d → Outcome (Loading d)
  after_placed placed =
      load_all_endpoints d ndebug x read_int id none e
        (push_destruction d ndebug (removal_time d ndebug x read_int e l) id placed.loading).1

  -- A server that is created late and not removed, in a manager that does not know it, with endpoints
  -- that have a topic and no times of their own: the loader goes through, and it only queues the
  -- creation of the server. It calls Fast DDS for none of the endpoints, and queues none of them, so
  -- that they are never created.
  pub place_server_late :
      IsUnknown d id l
      → All (IsTimeless x) (x.children s_publisher e)
      → All (IsTimeless x) (x.children s_subscriber e)
      → eqb_ℤ (creation_time d ndebug x read_int e l) (get_time d l) ≡ false
      → removal_time d ndebug x read_int e l ≡ get_time d l
      → (l' : Loading d) × (place_server d x ndebug read_int id qos e l ≡ done l')
        × (l'.process.world ≡ l.process.world)
        × (l'.process.events ≡ queued.process.events)
        × (l'.queue ≡ l.queue ++ new_pointer l.process.events ∷ [])
  unfolding place_server load_all_endpoints push_event
  place_server_late u pubs subs late remains =
      let (l1, f1, u1, w1, v1, q1) =
        none_created d id ndebug x read_int of_writer (x.children s_publisher e) queued pubs
          (queued-IsUnknown u) in
      let (l2, f2, u2, w2, v2, q2) =
        none_created d id ndebug x read_int of_reader (x.children s_subscriber e) l1 subs u1 in
      (
        l2,
        ap (λ o. o >>= after_placed) (placed_late late)
            ∙ ap (λ r. load_all_endpoints d ndebug x read_int id none e r.1) (stays remains)
            ∙ ap
                (λ o. o >>= λ l'.
                  load_endpoints d ndebug x read_int of_reader id none (x.children s_subscriber e)
                    l')
                f1
            ∙ f2,
        w2 ∙ w1,
        v2 ∙ v1,
        q2 ∙ q1,
      )
