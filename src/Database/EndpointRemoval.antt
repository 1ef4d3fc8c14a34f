-- ===== src/Database/EndpointRemoval.antt =====
-- What RemoveEndPoint changes, and that it undoes AddEndPoint.
use discovery_server.Prelude.{
  ◌≡◌, ◌≢◌, sym, ap, subst, ◌∙◌, Bool, true, false, not, ◌&&◌, Option, none, some, List, String,
  arith, ◌==◌, if◌then◌else◌, is_none, Option-cases, inl, inr,
}
use discovery_server.OrderedSet.{find, emplace, erase}
use discovery_server.OrderedSet.Order.{IsSorted}
use discovery_server.OrderedSet.Lookup.{
  seek-find, find-modify, find-erase, erase-modify, erase-emplace, All-find,
}
use discovery_server.Outcome.{done}
use discovery_server.Item.{
  Guid, TimePoint, ParticipantDiscoveryItem, participant_guid, count_endpoints,
}
use discovery_server.Item.EndPoint.{EndPoint}
use discovery_server.Snapshot.{Snapshot, participants_of}
use discovery_server.Snapshot.Lookup.{
  database_at, participant_at, participant_at-update, participant_at-participants_of,
}
use discovery_server.Database.{
  Participants, enter_endpoint, add_end_point, without_endpoint, remove_from_participants,
  remove_end_point,
}
use discovery_server.Database.Image.{remove_end_point_absent, remove_end_point-update}
use discovery_server.Database.Cases.{remove_unknown, remove_missing, remove_last, remove_kept}
use discovery_server.Database.Invariant.{IsValidItem, without_endpoint_guid}
use discovery_server.Database.WellFormed.{IsWellFormed, IsGood, add_end_point-IsGood}
use discovery_server.Database.Participants.{participants_of-AreValid}
use discovery_server.Database.Endpoints.{
  endpoint_at, participant_at-add_known, endpoint_at-enter_endpoint,
}

module _ {T : Type 0} (m : EndPoint T) where
  -- The participant that RemoveEndPoint leaves: nothing of a zombie that lost its last endpoint.
  abbrev pub thinned : Guid → Option ParticipantDiscoveryItem → Option ParticipantDiscoveryItem
  thinned id none = none
  thinned id (some p) =
      if is_none (endpoint_at m id p)
      then some p
      else if count_endpoints (without_endpoint m id p) == 0
          && not (without_endpoint m id p).is_alive
      then none
      else some (without_endpoint m id p)

  abbrev pub has_endpoint : Guid → Option ParticipantDiscoveryItem → Bool
  has_endpoint id none = false
  has_endpoint id (some p) = not (is_none (endpoint_at m id p))

  find-remove :
      (p ptid id : Guid) (ps : Participants)
      → IsSorted participant_guid ps
      → ((remove_from_participants m ptid id ps).0
          ≡ has_endpoint id (find participant_guid ptid ps))
        × (find participant_guid p (remove_from_participants m ptid id ps).1 ≡ (
            if ptid == p
            then thinned id (find participant_guid ptid ps)
            else find participant_guid p ps))
  find-remove p ptid id ps h = elim (Option-cases (find participant_guid ptid ps)) [
    | inl e ↦ ground (arith, remove_unknown m ptid id ps e)
    | inr (q, e) ↦ elim (Option-cases (endpoint_at m id q)) [
      | inl f ↦ ground (arith, remove_missing m ptid id ps q e f)
      | inr (x, f) ↦ ground (
        arith,
        remove_last m ptid id ps q x e f,
        remove_kept m ptid id ps q x e f,
        erase-modify participant_guid ptid (without_endpoint m id) ps (without_endpoint_guid m id),
        find-erase participant_guid p ptid 0 ps h,
        find-modify participant_guid p ptid 0 (without_endpoint m id) ps
            (without_endpoint_guid m id) h,
      )
    ]
  ]

  -- RemoveDataReader and RemoveDataWriter on a well-formed image: the result tells whether the endpoint
  -- was known; it goes from the spokesman's view of its participant, the participant too where it
  -- was a zombie without another endpoint, and no other view changes.
  pub participant_at-remove_end_point :
      (spokesman ptid id : Guid) (s : Snapshot) (k p : Guid)
      → IsWellFormed s
      → ((remove_end_point m spokesman ptid id s).0
          ≡ has_endpoint id (participant_at spokesman ptid s))
        × (participant_at k p (remove_end_point m spokesman ptid id s).1 ≡ (
            if spokesman == k && ptid == p
            then thinned id (participant_at spokesman ptid s)
            else participant_at k p s))
  participant_at-remove_end_point spokesman ptid id s k p w =
      elim (Option-cases (database_at spokesman s)) [
        | inl e ↦ ground (arith, remove_end_point_absent m spokesman ptid id s e)
        | inr (db, e) ↦ ground (
          arith,
          remove_end_point-update m spokesman ptid id s db w.ordered e,
          participant_at-update k p spokesman "" (λ ps. (remove_from_participants m ptid id ps).1) s
              w.ordered,
          find-remove p ptid id (participants_of spokesman s)
              (participants_of-AreValid spokesman s w).0,
          participant_at-participants_of spokesman ptid s,
          participant_at-participants_of spokesman p s,
        )
      ]

  enter_endpoint_new :
      (id : Guid) (type topic : String) (t : TimePoint) (p : ParticipantDiscoveryItem)
      → endpoint_at m id p ≡ none
      → enter_endpoint m id type topic t p
        ≡ m.set_members (emplace m.guid (m.new id type topic t) (m.members p)) p
  unfolding enter_endpoint
  enter_endpoint_new id type topic t p e = ground (arith, seek-find m.guid id (m.members p))

  without-set_members :
      (id : Guid) (es : List T) (p : ParticipantDiscoveryItem)
      → without_endpoint m id (m.set_members es p) ≡ m.set_members (erase m.guid id es) p
  unfolding without_endpoint
  without-set_members id es p =
      ap (λ fs. m.set_members (erase m.guid id fs) (m.set_members es p))
        (m.members-set_members es p)
      ∙ m.set_members_twice _ es p

  without-enter :
      (id : Guid) (type topic : String) (t : TimePoint) (p : ParticipantDiscoveryItem)
      → IsSorted m.guid (m.members p)
      → endpoint_at m id p ≡ none
      → without_endpoint m id (enter_endpoint m id type topic t p) ≡ p
  without-enter id type topic t p h e =
      rw (enter_endpoint_new id type topic t p e, without-set_members, erased)
        (m.set_members_self p)
    where
      new : T
      new = m.new id type topic t

      erased : erase m.guid id (emplace m.guid new (m.members p)) ≡ m.members p
      erased =
          rw (m.guid-new id type topic t) at
            (erase-emplace m.guid 0 new (m.members p) h (rw (m.guid-new id type topic t) e))

  -- On a well-formed image, where no assertion fails, a new endpoint of a known participant other
  -- than the spokesman that is added and then removed again leaves every view
  -- as it was, and the removal reports success.
  pub remove-add :
      (ndebug : Bool) (spokesman : Guid) (src : String) (ptid id : Guid) (type topic : String)
      (t now : TimePoint) (s : Snapshot) {r : Bool} {s' : Snapshot} {q : ParticipantDiscoveryItem}
      (k p : Guid)
      → IsWellFormed s
      → ptid ≢ spokesman
      → participant_at spokesman ptid s ≡ some q
      → endpoint_at m id q ≡ none
      → add_end_point m ndebug spokesman src ptid id type topic t now s ≡ done (r, s')
      → ((remove_end_point m spokesman ptid id s').0 ≡ true)
        × (participant_at k p (remove_end_point m spokesman ptid id s').1 ≡ participant_at k p s)
  remove-add ndebug spokesman src ptid id type topic t now s {s'} {q} k p w other known new e =
      ground (
        arith,
        participant_at-add_known m ndebug spokesman src ptid id type topic t now s w e spokesman
            ptid other known,
        participant_at-add_known m ndebug spokesman src ptid id type topic t now s w e k p other
            known,
        participant_at-remove_end_point spokesman ptid id s' k p after,
        endpoint_at-enter_endpoint m id id type topic t q ordered,
        without-enter id type topic t q ordered new,
        valid,
      )
    where
      after : IsWellFormed s'
      after =
          subst IsGood e (add_end_point-IsGood m ndebug spokesman src ptid id type topic t now s w)

      valid : IsValidItem q
      valid =
          All-find participant_guid IsValidItem ptid (participants_of spokesman s)
            (sym (participant_at-participants_of spokesman ptid s) ∙ known)
            (participants_of-AreValid spokesman s w).1

      ordered : IsSorted m.guid (m.members q)
      ordered = m.members-IsSorted q valid.sets
