-- ===== src/Database/Entering.antt =====
-- Where AddEndPoint enters an endpoint, src/DiscoveryItem.cpp, by the endpoints that are there
-- afterwards.
use discovery_server.Prelude.{
  ◌≡◌, ◌≢◌, refl, sym, ◌∙◌, Bool, true, false, ◌&&◌, ◌||◌, ◌⊎◌, inl, inr, none, some, List, [], ◌∷◌,
  String, arith, ◌==◌, ltb, leb, ◌<◌, ℕ, All, if◌then◌else◌, from_option, is_none, Option-cases,
}
use discovery_server.OrderedSet.{find, lower_bound, seek, at_key}
use discovery_server.OrderedSet.Order.{IsSorted}
use discovery_server.OrderedSet.Lookup.{seek-find, All-find}
use discovery_server.Outcome.{done}
use discovery_server.Item.{
  Guid, TimePoint, ParticipantDiscoveryItem, participant_guid, new_participant, acknowledge,
}
use discovery_server.Item.EndPoint.{EndPoint, HasSortedSets}
use discovery_server.Snapshot.{Snapshot, participants_of}
use discovery_server.Snapshot.Lookup.{participant_at, participant_at-participants_of}
use discovery_server.Database.{enter_endpoint, add_end_point}
use discovery_server.Database.Invariant.{IsValidItem, new_participant-IsValidItem}
use discovery_server.Database.WellFormed.{IsWellFormed}
use discovery_server.Database.Participants.{participants_of-AreValid}
use discovery_server.Database.Endpoints.{
  endpoint_at, endpoint_at-enter_endpoint, participant_at-add_known, participant_at-add_misfiled,
  participant_at-add_entered,
}

-- No key is below `k`, or none lies between `k` and that of `q`.
module _ {A : Type 0} (key : A → ℕ) (k : ℕ) where
  lower_bound_behind : (xs : List A) → All (λ x. key x < k) xs → lower_bound key k xs ≡ none
  unfolding lower_bound
  lower_bound_behind [] h = refl
  lower_bound_behind (x ∷ xs) h = ground (arith, h.0, lower_bound_behind xs h.1)

  abbrev pub NoneBetween : A → List A → Type 0
  NoneBetween q xs = All (λ x. (ltb (key x) k || leb (key q) (key x)) ≡ true) xs

  lower_bound_next :
      (q : A) (xs : List A)
      → k < key q
      → find key (key q) xs ≡ some q
      → NoneBetween q xs
      → lower_bound key k xs ≡ some q
  unfolding lower_bound find
  lower_bound_next q [] below here h = here
  lower_bound_next q (x ∷ xs) below here h =
      ground (arith, h.0, below, here, lower_bound_next q xs below)

  find_missing :
      {q : A} (xs : List A) → lower_bound key k xs ≡ some q → k < key q → find key k xs ≡ none
  unfolding seek at_key
  find_missing {q} xs l below = sym (seek-find key k xs) ∙ rw l (ground arith)

module _ {T : Type 0} (m : EndPoint T) where
  -- `q'` is `q` with the endpoint in its set: the description given is that of a new endpoint, one
  -- that was there keeps its first; no other endpoint, and nothing else of `q`, changes.
  pub record HasEntered (id : Guid) (type topic : String) (t : TimePoint)
      (q q' : ParticipantDiscoveryItem) : Type 0 where
    pub endpoints :
        (j : Guid)
        → endpoint_at m j q' ≡ (
            if id == j
            then some (from_option (endpoint_at m id q) (m.new id type topic t))
            else endpoint_at m j q)
    pub others_kept : m.set_members [] q' ≡ m.set_members [] q

  enter_endpoint-HasEntered :
      (id : Guid) (type topic : String) (t : TimePoint) (q : ParticipantDiscoveryItem)
      → IsSorted m.guid (m.members q)
      → HasEntered id type topic t q (enter_endpoint m id type topic t q)
  unfolding enter_endpoint
  enter_endpoint-HasEntered id type topic t q s = record {
    endpoints = λ j. endpoint_at-enter_endpoint m j id type topic t q s;
    others_kept = m.set_members_twice [] _ q;
  }

  module _ (ndebug : Bool) (spokesman : Guid) (src : String) (ptid id : Guid) (type topic : String)
      (t now : TimePoint) (s : Snapshot) {r : Bool} {s' : Snapshot} (w : IsWellFormed s)
      (e : add_end_point m ndebug spokesman src ptid id type topic t now s ≡ done (r, s')) where
    valid_known :
        (p : Guid) {q : ParticipantDiscoveryItem}
        → participant_at spokesman p s ≡ some q
        → IsValidItem q
    valid_known p known =
        All-find participant_guid IsValidItem p (participants_of spokesman s)
          (sym (participant_at-participants_of spokesman p s) ∙ known)
          (participants_of-AreValid spokesman s w).1

    entered_in :
        (q : ParticipantDiscoveryItem)
        → IsValidItem q
        → HasEntered id type topic t q (enter_endpoint m id type topic t q)
    entered_in q v = enter_endpoint-HasEntered id type topic t q (m.members-IsSorted q v.sets)

    -- AddDataReader and AddDataWriter on a well-formed image, where no assertion fails, for another
    -- participant that the spokesman knows: afterwards the participant has the endpoint, with the
    -- description given if it is new and the first one if it was there, and its other endpoints and
    -- the rest of it as before; no other view changes.
    pub add_end_point_known :
        (k p : Guid) {q : ParticipantDiscoveryItem}
        → ptid ≢ spokesman
        → participant_at spokesman ptid s ≡ some q
        → (q' : ParticipantDiscoveryItem) × HasEntered id type topic t q q'
          × (participant_at k p s'
              ≡ (if spokesman == k && ptid == p then some q' else participant_at k p s))
    add_end_point_known k p {q} other known = (
      enter_endpoint m id type topic t q,
      entered_in q (valid_known ptid known),
      participant_at-add_known m ndebug spokesman src ptid id type topic t now s w e k p other
          known,
    )

    -- An endpoint of an unknown participant other than the spokesman, on a well-formed image, where
    -- no assertion fails and the spokesman knows a participant with a greater GUID and none between
    -- them: afterwards that next participant has the endpoint, as if it were its own, and no other
    -- view changes.
    pub add_end_point_misfiled :
        (k p : Guid) {q : ParticipantDiscoveryItem}
        → ptid ≢ spokesman
        → ptid < q.endpoint_guid
        → participant_at spokesman q.endpoint_guid s ≡ some q
        → NoneBetween participant_guid ptid q (participants_of spokesman s)
        → (q' : ParticipantDiscoveryItem) × HasEntered id type topic t q q'
          × (participant_at k p s'
              ≡ (if spokesman == k && q.endpoint_guid == p then some q' else participant_at k p s))
    add_end_point_misfiled k p {q} other below known next =
        let ps = participants_of spokesman s in
        let l =
          lower_bound_next participant_guid ptid q ps below
            (sym (participant_at-participants_of spokesman q.endpoint_guid s) ∙ known) next in
        (
          enter_endpoint m id type topic t q,
          entered_in q (valid_known q.endpoint_guid known),
          participant_at-add_misfiled m ndebug spokesman src ptid id type topic t now s w e k p
              other
              (participant_at-participants_of spokesman ptid s
                ∙ find_missing participant_guid ptid ps l below)
              l,
        )

    -- What is known of a participant that speaks of itself, or that comes behind all others.
    abbrev pub known_or_new : ParticipantDiscoveryItem
    known_or_new =
        record (from_option (participant_at spokesman ptid s) (new_participant ptid "" false now)) {
          is_alive = ptid == spokesman;
        }

    sets_sorted :
        HasSortedSets
          (from_option (participant_at spokesman ptid s) (new_participant ptid "" false now))
    sets_sorted = elim (Option-cases (participant_at spokesman ptid s)) [
      | inl h ↦ rw h ((new_participant-IsValidItem ptid "" false now).sets)
      | inr (q, h) ↦ rw h ((valid_known ptid h).sets)
    ]

    known_or_new-IsSorted : IsSorted m.guid (m.members known_or_new)
    known_or_new-IsSorted = m.members-IsSorted known_or_new (record {
      writers_sorted = sets_sorted.writers_sorted;
      readers_sorted = sets_sorted.readers_sorted;
    })

    -- On a well-formed image, where no assertion fails, an endpoint of the spokesman itself, or of a
    -- participant whose GUID is greater than all that the spokesman knows: afterwards the spokesman
    -- knows the participant, as before or as a new one without a name, but alive exactly if it is
    -- the spokesman; the participant has the endpoint, with its other endpoints and the rest of it
    -- as before; and no other view changes.
    pub add_end_point_entered :
        (k p : Guid)
        → (ptid ≡ spokesman) ⊎ All (λ q. q.endpoint_guid < ptid) (participants_of spokesman s)
        → (q' : ParticipantDiscoveryItem) × HasEntered id type topic t known_or_new q'
          × (participant_at k p s'
              ≡ (if spokesman == k && ptid == p then some q' else participant_at k p s))
    unfolding acknowledge
    add_end_point_entered k p h = (
      enter_endpoint m id type topic t known_or_new,
      enter_endpoint-HasEntered id type topic t known_or_new known_or_new-IsSorted,
      participant_at-add_entered m ndebug spokesman src ptid id type topic t now s w e k p
          (chosen h),
    )
      where
        chosen :
            (ptid ≡ spokesman) ⊎ All (λ q. q.endpoint_guid < ptid) (participants_of spokesman s)
            → (is_none (lower_bound participant_guid ptid (participants_of spokesman s))
                || ptid == spokesman)
              ≡ true
        chosen (inl same) = ground (arith, same)
        chosen (inr behind) =
            rw (lower_bound_behind participant_guid ptid (participants_of spokesman s) behind) refl
