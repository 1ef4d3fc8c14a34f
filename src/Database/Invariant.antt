-- ===== src/Database/Invariant.antt =====
-- What every operation of DiscoveryItemDatabase keeps: the sets are in order, and a zombie (a
-- participant reported dead) still owns an endpoint.
use discovery_server.Prelude.{
  ◌<◌, ◌≡◌, refl, ap, Bool, false, List, String, arith, ◌==◌, if◌then◌else◌, All, Bool-cases,
  Option-cases, inl, inr, length, is_none,
}
use discovery_server.OrderedSet.{seek, find, emplace}
use discovery_server.OrderedSet.Order.{IsSorted, emplace-Above, erase-Above, modify-Above}
use discovery_server.OrderedSet.Lookup.{
  seek-find, All-emplace, All-erase, All-modify, All-modify_found, All-find, find_nonempty,
  erase-modify, emplace_nonempty,
}
use discovery_server.Item.{
  Guid, TimePoint, ParticipantDiscoveryItem, participant_guid, new_participant, acknowledge,
  count_endpoints,
}
use discovery_server.Item.EndPoint.{EndPoint, HasSortedSets}
use discovery_server.Database.{
  revive, register, unregister, enter_endpoint, add_to_participants, without_endpoint,
  remove_from_participants,
}
use discovery_server.Database.Cases.{unregister_cases, add_cases, remove_cases}

pub record IsValidItem (p : ParticipantDiscoveryItem) : Type 0 where
  pub sets : HasSortedSets p
  pub zombie_owns : p.is_alive ≡ false → 0 < count_endpoints p

abbrev pub AreValid : List ParticipantDiscoveryItem → Type 0
AreValid ps = IsSorted participant_guid ps × All IsValidItem ps

pub new_participant-IsValidItem :
    (id : Guid) (name : String) (server : Bool) (t : TimePoint)
    → IsValidItem (new_participant id name server t)
unfolding new_participant
new_participant-IsValidItem id name server t = record {
  sets = record { writers_sorted = tt; readers_sorted = tt };
  zombie_owns = λ e. cc;
}

pub revive_guid :
    (name : String) (server : Bool) (t : TimePoint) (p : ParticipantDiscoveryItem)
    → (revive name server t p).endpoint_guid ≡ p.endpoint_guid
unfolding revive
revive_guid name server t p = ground arith

revive-IsValidItem :
    (name : String) (server : Bool) (t : TimePoint) (p : ParticipantDiscoveryItem)
    → IsValidItem p
    → IsValidItem (revive name server t p)
unfolding revive
revive-IsValidItem name server t p v = record {
  sets = record { writers_sorted = ground arith; readers_sorted = ground arith };
  zombie_owns = λ e. ground arith;
}

pub register-AreValid :
    (ptid : Guid) (name : String) (server : Bool) (now t : TimePoint)
    (ps : List ParticipantDiscoveryItem)
    → AreValid ps
    → AreValid (register ptid name server now t ps)
unfolding register
register-AreValid ptid name server now t ps v =
    elim (Bool-cases (is_none (seek participant_guid ptid ps))) [
      | inl absent ↦ rw absent (
        modify-Above participant_guid 0 ptid (revive name server t) _ (revive_guid name server t)
            (emplace-Above participant_guid 0 fresh ps (omega arith) v.0),
        All-modify participant_guid IsValidItem ptid (revive name server t) _
            (revive-IsValidItem name server t)
            (All-emplace participant_guid IsValidItem fresh ps
              (new_participant-IsValidItem ptid name server now) v.1),
      )
      | inr present ↦ rw present (
        modify-Above participant_guid 0 ptid (revive name server t) ps (revive_guid name server t)
            v.0,
        All-modify participant_guid IsValidItem ptid (revive name server t) ps
            (revive-IsValidItem name server t) v.1,
      )
    ]
  where
    fresh : ParticipantDiscoveryItem
    fresh = new_participant ptid name server now

pub unregister-AreValid :
    (ptid : Guid) (ps : List ParticipantDiscoveryItem)
    → AreValid ps
    → AreValid (unregister ptid ps).1
unfolding acknowledge count_endpoints
unregister-AreValid ptid ps v =
    unregister_cases (λ r. AreValid r.1) ptid ps (λ e. v)
      (λ p e c. (
        erase-Above participant_guid 0 ptid ps v.0,
        All-erase participant_guid IsValidItem ptid ps v.1,
      ))
      λ p e c. (
        modify-Above participant_guid 0 ptid (acknowledge false) ps (λ q. refl) v.0,
        All-modify_found participant_guid IsValidItem ptid (acknowledge false) ps e
            (record {
              sets = record {
                writers_sorted =
                    (All-find participant_guid IsValidItem ptid ps e v.1).sets.writers_sorted;
                readers_sorted =
                    (All-find participant_guid IsValidItem ptid ps e v.1).sets.readers_sorted;
              };
              zombie_owns = λ _. c;
            })
            v.1,
      )

module _ {T : Type 0} (m : EndPoint T) where
  abbrev entered_in : Guid → String → String → TimePoint → List T → List T
  entered_in id type topic t cont =
      if is_none (seek m.guid id cont) then emplace m.guid (m.new id type topic t) cont else cont

  entered_in_nonempty :
      (id : Guid) (type topic : String) (t : TimePoint) (cont : List T)
      → 0 < length (entered_in id type topic t cont)
  entered_in_nonempty id type topic t cont = elim (Option-cases (find m.guid id cont)) [
    | inl e ↦
        rw (seek-find m.guid id cont, e) (emplace_nonempty m.guid (m.new id type topic t) cont)
    | inr (x, e) ↦ rw (seek-find m.guid id cont, e) (find_nonempty m.guid id cont e)
  ]

  entered_in-IsSorted :
      (id : Guid) (type topic : String) (t : TimePoint) (cont : List T)
      → IsSorted m.guid cont
      → IsSorted m.guid (entered_in id type topic t cont)
  entered_in-IsSorted id type topic t cont s =
      ground (arith, emplace-Above m.guid 0 (m.new id type topic t) cont)

  pub enter_endpoint_owns :
      (id : Guid) (type topic : String) (t : TimePoint) (p : ParticipantDiscoveryItem)
      → 0 < count_endpoints (enter_endpoint m id type topic t p)
  unfolding enter_endpoint
  enter_endpoint_owns id type topic t p =
      let es = entered_in id type topic t (m.members p) in
      omega (
        arith,
        m.count_endpoints-parts (m.set_members es p),
        ap length (m.members-set_members es p),
        entered_in_nonempty id type topic t (m.members p),
      )

  pub enter_endpoint-IsValidItem :
      (id : Guid) (type topic : String) (t : TimePoint) (p : ParticipantDiscoveryItem)
      → HasSortedSets p
      → IsValidItem (enter_endpoint m id type topic t p)
  unfolding enter_endpoint
  enter_endpoint-IsValidItem id type topic t p s = record {
    sets =
        m.set_members-HasSortedSets _ p
          (entered_in-IsSorted id type topic t (m.members p) (m.members-IsSorted p s)) s;
    zombie_owns = λ _. enter_endpoint_owns id type topic t p;
  }

  pub enter_endpoint_guid :
      (id : Guid) (type topic : String) (t : TimePoint) (p : ParticipantDiscoveryItem)
      → (enter_endpoint m id type topic t p).endpoint_guid ≡ p.endpoint_guid
  unfolding enter_endpoint
  enter_endpoint_guid id type topic t p = m.set_members_guid _ p

  acknowledge-HasSortedSets :
      (b : Bool) (p : ParticipantDiscoveryItem) → IsValidItem p → HasSortedSets (acknowledge b p)
  unfolding acknowledge
  acknowledge-HasSortedSets b p v = record {
    writers_sorted = v.sets.writers_sorted;
    readers_sorted = v.sets.readers_sorted;
  }

  pub add_to_participants-AreValid :
      (spokesman ptid id : Guid) (type topic : String) (t now : TimePoint)
      (ps : List ParticipantDiscoveryItem)
      → AreValid ps
      → AreValid (add_to_participants m spokesman ptid id type topic t now ps)
  unfolding new_participant acknowledge
  add_to_participants-AreValid spokesman ptid id type topic t now ps v =
      add_cases m AreValid spokesman ptid id type topic t now ps
        (λ _. (
          modify-Above participant_guid 0 ptid _ _
              (λ p. enter_endpoint_guid id type topic t (acknowledge (ptid == spokesman) p))
              (emplace-Above participant_guid 0 fresh ps (omega arith) v.0),
          All-modify participant_guid IsValidItem ptid _ _
              (λ p w.
                enter_endpoint-IsValidItem id type topic t _
                  (acknowledge-HasSortedSets (ptid == spokesman) p w))
              (All-emplace participant_guid IsValidItem fresh ps
                (new_participant-IsValidItem ptid "" false now) v.1),
        ))
        λ p _ _. (
          modify-Above participant_guid 0 p.endpoint_guid _ ps (enter_endpoint_guid id type topic t)
              v.0,
          All-modify participant_guid IsValidItem p.endpoint_guid _ ps
              (λ q w. enter_endpoint-IsValidItem id type topic t q w.sets) v.1,
        )
    where
      fresh : ParticipantDiscoveryItem
      fresh = new_participant ptid "" false now

  without_endpoint-HasSortedSets :
      (id : Guid) (p : ParticipantDiscoveryItem)
      → HasSortedSets p
      → HasSortedSets (without_endpoint m id p)
  unfolding without_endpoint
  without_endpoint-HasSortedSets id p s =
      m.set_members-HasSortedSets _ p
        (erase-Above m.guid 0 id (m.members p) (m.members-IsSorted p s)) s

  pub without_endpoint_guid :
      (id : Guid) (p : ParticipantDiscoveryItem)
      → (without_endpoint m id p).endpoint_guid ≡ p.endpoint_guid
  unfolding without_endpoint
  without_endpoint_guid id p = m.set_members_guid _ p

  pub remove_from_participants-AreValid :
      (ptid id : Guid) (ps : List ParticipantDiscoveryItem)
      → AreValid ps
      → AreValid (remove_from_participants m ptid id ps).1
  remove_from_participants-AreValid ptid id ps v =
      remove_cases m (λ r. AreValid r.1) ptid id ps (λ _. v) (λ _ _ _. v)
        (λ p e f g last.
          rw
            (erase-modify participant_guid ptid (without_endpoint m id) ps
              (without_endpoint_guid id))
            (
              erase-Above participant_guid 0 ptid ps v.0,
              All-erase participant_guid IsValidItem ptid ps v.1,
            ))
        λ p e f g kept. (
          modify-Above participant_guid 0 ptid (without_endpoint m id) ps (without_endpoint_guid id)
              v.0,
          All-modify_found participant_guid IsValidItem ptid (without_endpoint m id) ps f
              (record {
                sets =
                    without_endpoint-HasSortedSets id p
                      (All-find participant_guid IsValidItem ptid ps f v.1).sets;
                zombie_owns = λ dead. ground arith;
              })
              v.1,
        )
