-- ===== src/Database/Endpoints.antt =====
-- What AddEndPoint and RemoveEndPoint change, as seen through `participant_at`, for both kinds of
-- endpoint.
use discovery_server.Prelude.{
  ◌≡◌, ◌≢◌, ◌∙◌, Bool, true, false, ◌&&◌, ◌||◌, Option, none, some, String, arith, ◌==◌,
  if◌then◌else◌, from_option, is_none,
}
use discovery_server.OrderedSet.{find, seek, emplace, lower_bound}
use discovery_server.OrderedSet.Order.{IsSorted, emplace-Above}
use discovery_server.OrderedSet.Lookup.{
  seek-find, find-emplace, find-modify, lower_bound-find, lower_bound_absent, find-key,
  modify-modify,
}
use discovery_server.Outcome.{done}
use discovery_server.Item.{
  Guid, TimePoint, ParticipantDiscoveryItem, participant_guid, new_participant, acknowledge,
  acknowledge_guid, new_participant_guid,
}
use discovery_server.Item.EndPoint.{EndPoint}
use discovery_server.Snapshot.{Snapshot, participants_of}
use discovery_server.Snapshot.Lookup.{
  participant_at, participant_at-update, participant_at-participants_of,
}
use discovery_server.Database.{Participants, enter_endpoint, add_to_participants, add_end_point}
use discovery_server.Database.Image.{add_end_point_done}
use discovery_server.Database.Cases.{add_behind, add_entered}
use discovery_server.Database.Invariant.{enter_endpoint_guid}
use discovery_server.Database.WellFormed.{IsWellFormed}
use discovery_server.Database.Participants.{participants_of-AreValid}

module _ {T : Type 0} (m : EndPoint T) where
  module _ (spokesman ptid id : Guid) (type topic : String) (t now : TimePoint) (ps : Participants)
      (sorted : IsSorted participant_guid ps) where
    find-add_known :
        (p : Guid) {q : ParticipantDiscoveryItem}
        → ptid ≢ spokesman
        → find participant_guid ptid ps ≡ some q
        → find participant_guid p (add_to_participants m spokesman ptid id type topic t now ps) ≡ (
            if ptid == p
            then some (enter_endpoint m id type topic t q)
            else find participant_guid p ps)
    find-add_known p {q} other e = ground (
      arith,
      find-key participant_guid ptid ps e,
      lower_bound-find participant_guid ptid ps e,
      add_behind m spokesman ptid id type topic t now ps q other,
      find-modify participant_guid p ptid 0 (enter_endpoint m id type topic t) ps
          (enter_endpoint_guid m id type topic t) sorted,
    )

    -- The participant is not there, and another one stands behind its place.
    find-add_misfiled :
        (p : Guid) {q : ParticipantDiscoveryItem}
        → ptid ≢ spokesman
        → lower_bound participant_guid ptid ps ≡ some q
        → find participant_guid ptid ps ≡ none
        → find participant_guid p (add_to_participants m spokesman ptid id type topic t now ps) ≡ (
            if q.endpoint_guid == p
            then some (enter_endpoint m id type topic t q)
            else find participant_guid p ps)
    find-add_misfiled p {q} other l e = ground (
      arith,
      lower_bound_absent participant_guid ptid ps e l,
      add_behind m spokesman ptid id type topic t now ps q other,
      find-modify participant_guid p q.endpoint_guid 0 (enter_endpoint m id type topic t) ps
          (enter_endpoint_guid m id type topic t) sorted,
    )

    find-add_entered :
        (p : Guid)
        → (is_none (lower_bound participant_guid ptid ps) || ptid == spokesman) ≡ true
        → find participant_guid p (add_to_participants m spokesman ptid id type topic t now ps) ≡ (
            if ptid == p
            then some (
                enter_endpoint m id type topic t (
                  acknowledge (ptid == spokesman) (
                    from_option
                      (find participant_guid ptid ps)
                      (new_participant ptid "" false now))))
            else find participant_guid p ps)
    find-add_entered p h = ground (
      arith,
      new_participant_guid ptid "" false now,
      add_entered m spokesman ptid id type topic t now ps h,
      modify-modify participant_guid ptid enter dub (emplace participant_guid fresh ps) dub_guid,
      emplace-Above participant_guid 0 fresh ps,
      find-emplace participant_guid p 0 fresh ps sorted,
      find-emplace participant_guid ptid 0 fresh ps sorted,
      find-modify participant_guid p ptid 0 (λ q. enter (dub q)) (emplace participant_guid fresh ps)
          (λ q. enter_endpoint_guid m id type topic t (dub q) ∙ dub_guid q),
    )
      where
        enter : ParticipantDiscoveryItem → ParticipantDiscoveryItem
        enter = enter_endpoint m id type topic t

        dub : ParticipantDiscoveryItem → ParticipantDiscoveryItem
        dub = acknowledge (ptid == spokesman)

        dub_guid : (q : ParticipantDiscoveryItem) → (dub q).endpoint_guid ≡ q.endpoint_guid
        dub_guid = acknowledge_guid (ptid == spokesman)

        fresh : ParticipantDiscoveryItem
        fresh = new_participant ptid "" false now

  module _ (ndebug : Bool) (spokesman : Guid) (src : String) (ptid id : Guid) (type topic : String)
      (t now : TimePoint) (s : Snapshot) {r : Bool} {s' : Snapshot} (w : IsWellFormed s)
      (e : add_end_point m ndebug spokesman src ptid id type topic t now s ≡ done (r, s')) where
    at-add_end_point :
        (k p : Guid)
        → participant_at k p s' ≡ (
            if spokesman == k
            then find participant_guid p (
                add_to_participants m spokesman ptid id type topic t now
                  (participants_of spokesman s))
            else participant_at k p s)
    at-add_end_point k p = ground (
      arith,
      add_end_point_done m ndebug spokesman src ptid id type topic t now s e,
      participant_at-update k p spokesman src
          (add_to_participants m spokesman ptid id type topic t now) s w.ordered,
    )

    -- AddDataReader and AddDataWriter on a well-formed image, where no assertion fails, for another
    -- participant that the spokesman knows: the endpoint is entered there, and no other view changes.
    pub participant_at-add_known :
        (k p : Guid) {q : ParticipantDiscoveryItem}
        → ptid ≢ spokesman
        → participant_at spokesman ptid s ≡ some q
        → participant_at k p s' ≡ (
            if spokesman == k && ptid == p
            then some (enter_endpoint m id type topic t q)
            else participant_at k p s)
    participant_at-add_known k p {q} other known = ground (
      arith,
      at-add_end_point k p,
      participant_at-participants_of spokesman ptid s,
      participant_at-participants_of spokesman p s,
      find-add_known spokesman ptid id type topic t now (participants_of spokesman s)
          (participants_of-AreValid spokesman s w).0 p {q = q} other,
    )

    -- An endpoint of an unknown participant other than the spokesman, on a well-formed image, where
    -- no assertion fails and the spokesman knows some participant with a greater GUID: it is entered
    -- under the next such participant, and no other view changes.
    pub participant_at-add_misfiled :
        (k p : Guid) {q : ParticipantDiscoveryItem}
        → ptid ≢ spokesman
        → participant_at spokesman ptid s ≡ none
        → lower_bound participant_guid ptid (participants_of spokesman s) ≡ some q
        → participant_at k p s' ≡ (
            if spokesman == k && q.endpoint_guid == p
            then some (enter_endpoint m id type topic t q)
            else participant_at k p s)
    participant_at-add_misfiled k p {q} other unknown next = ground (
      arith,
      at-add_end_point k p,
      participant_at-participants_of spokesman ptid s,
      participant_at-participants_of spokesman p s,
      find-add_misfiled spokesman ptid id type topic t now (participants_of spokesman s)
          (participants_of-AreValid spokesman s w).0 p {q = q} other,
    )

    -- On a well-formed image, where no assertion fails, an endpoint of the spokesman itself, or of a participant behind all that the spokesman
    -- knows: the participant is entered where it is missing, alive exactly if it is the spokesman
    -- itself, the endpoint is entered there, and no other view changes.
    pub participant_at-add_entered :
        (k p : Guid)
        → (is_none (lower_bound participant_guid ptid (participants_of spokesman s))
            || ptid == spokesman)
          ≡ true
        → participant_at k p s' ≡ (
            if spokesman == k && ptid == p
            then some (
                enter_endpoint m id type topic t (
                  acknowledge (ptid == spokesman) (
                    from_option
                      (participant_at spokesman ptid s)
                      (new_participant ptid "" false now))))
            else participant_at k p s)
    participant_at-add_entered k p h = ground (
      arith,
      at-add_end_point k p,
      participant_at-participants_of spokesman ptid s,
      participant_at-participants_of spokesman p s,
      find-add_entered spokesman ptid id type topic t now (participants_of spokesman s)
          (participants_of-AreValid spokesman s w).0 p h,
    )

  -- The endpoint that a participant has under a GUID.
  abbrev pub endpoint_at : Guid → ParticipantDiscoveryItem → Option T
  endpoint_at id p = find m.guid id (m.members p)

  -- AddEndPoint on the participant, whose endpoints are in GUID order: the endpoint is entered with
  -- the description given if its GUID is new, one that is there keeps its first description, and
  -- no other endpoint changes.
  pub endpoint_at-enter_endpoint :
      (j id : Guid) (type topic : String) (t : TimePoint) (p : ParticipantDiscoveryItem)
      → IsSorted m.guid (m.members p)
      → endpoint_at j (enter_endpoint m id type topic t p) ≡ (
          if id == j
          then some (from_option (endpoint_at id p) (m.new id type topic t))
          else endpoint_at j p)
  unfolding enter_endpoint
  endpoint_at-enter_endpoint j id type topic t p h = ground (
    arith,
    m.guid-new id type topic t,
    m.members-set_members
        (if is_none (seek m.guid id (m.members p))
          then emplace m.guid (m.new id type topic t) (m.members p)
          else m.members p)
        p,
    seek-find m.guid id (m.members p),
    find-emplace m.guid j 0 (m.new id type topic t) (m.members p) h,
  )
