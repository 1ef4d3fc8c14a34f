-- ===== src/Database/Cases.antt =====
-- The branches of RemoveParticipant, AddEndPoint and RemoveEndPoint on the participants of one
-- database, as rules of case analysis.
use discovery_server.Prelude.{
  ◌<◌, ◌≡◌, ◌≢◌, refl, sym, ◌∙◌, subst, Bool, true, false, not, ◌&&◌, ◌||◌, Option, none, some,
  String, arith, ◌==◌, Bool-cases, Option-cases, inl, inr, is_none,
}
use discovery_server.OrderedSet.{find, emplace, erase, modify, lower_bound}
use discovery_server.OrderedSet.Lookup.{seek-find, modify-modify}
use discovery_server.Item.{
  Guid, TimePoint, ParticipantDiscoveryItem, participant_guid, new_participant, acknowledge,
  count_endpoints,
}
use discovery_server.Item.EndPoint.{EndPoint}
use discovery_server.Database.{
  Participants, unregister, enter_endpoint, add_to_participants, without_endpoint,
  remove_from_participants,
}

pub unregister_absent :
    (ptid : Guid) (ps : Participants)
    → find participant_guid ptid ps ≡ none
    → unregister ptid ps ≡ (false, ps)
unfolding unregister
unregister_absent ptid ps e = ground (arith, seek-find participant_guid ptid ps)

pub unregister_bare :
    (ptid : Guid) (ps : Participants) (p : ParticipantDiscoveryItem)
    → find participant_guid ptid ps ≡ some p
    → count_endpoints p ≡ 0
    → unregister ptid ps ≡ (true, erase participant_guid ptid ps)
unfolding unregister
unregister_bare ptid ps p e c = ground (arith, seek-find participant_guid ptid ps)

pub unregister_owning :
    (ptid : Guid) (ps : Participants) (p : ParticipantDiscoveryItem)
    → find participant_guid ptid ps ≡ some p
    → 0 < count_endpoints p
    → unregister ptid ps ≡ (true, modify participant_guid ptid (acknowledge false) ps)
unfolding unregister
unregister_owning ptid ps p e c = ground (arith, seek-find participant_guid ptid ps)

pub unregister_cases {ℓ} :
    (P : Bool × Participants → Type ℓ) (ptid : Guid) (ps : Participants)
    → (find participant_guid ptid ps ≡ none → P (false, ps))
    → ((p : ParticipantDiscoveryItem)
        → find participant_guid ptid ps ≡ some p
        → count_endpoints p ≡ 0
        → P (true, erase participant_guid ptid ps))
    → ((p : ParticipantDiscoveryItem)
        → find participant_guid ptid ps ≡ some p
        → 0 < count_endpoints p
        → P (true, modify participant_guid ptid (acknowledge false) ps))
    → P (unregister ptid ps)
unregister_cases P ptid ps absent bare owning =
    elim (Option-cases (find participant_guid ptid ps)) [
      | inl e ↦ subst P (sym (unregister_absent ptid ps e)) (absent e)
      | inr (p, e) ↦ elim (Bool-cases (0 == count_endpoints p)) [
        | inl z ↦
            subst P (sym (unregister_bare ptid ps p e (ground arith))) (bare p e (ground arith))
        | inr z ↦
            subst P (sym (unregister_owning ptid ps p e (ground arith))) (owning p e (ground arith))
      ]
    ]

module _ {T : Type 0} (m : EndPoint T) where
  pub remove_unknown :
      (ptid id : Guid) (ps : Participants)
      → find participant_guid ptid ps ≡ none
      → remove_from_participants m ptid id ps ≡ (false, ps)
  unfolding remove_from_participants
  remove_unknown ptid id ps e = ground (arith, seek-find participant_guid ptid ps)

  pub remove_missing :
      (ptid id : Guid) (ps : Participants) (p : ParticipantDiscoveryItem)
      → find participant_guid ptid ps ≡ some p
      → find m.guid id (m.members p) ≡ none
      → remove_from_participants m ptid id ps ≡ (false, ps)
  unfolding remove_from_participants
  remove_missing ptid id ps p e f =
      ground (arith, seek-find participant_guid ptid ps, seek-find m.guid id (m.members p))

  pub remove_last :
      (ptid id : Guid) (ps : Participants) (p : ParticipantDiscoveryItem) (e : T)
      → find participant_guid ptid ps ≡ some p
      → find m.guid id (m.members p) ≡ some e
      → (count_endpoints (without_endpoint m id p) == 0 && not (without_endpoint m id p).is_alive)
        ≡ true
      → remove_from_participants m ptid id ps ≡ (
        true,
        erase participant_guid ptid (modify participant_guid ptid (without_endpoint m id) ps),
      )
  unfolding remove_from_participants
  remove_last ptid id ps p e f g last =
      ground (arith, seek-find participant_guid ptid ps, seek-find m.guid id (m.members p))

  pub remove_kept :
      (ptid id : Guid) (ps : Participants) (p : ParticipantDiscoveryItem) (e : T)
      → find participant_guid ptid ps ≡ some p
      → find m.guid id (m.members p) ≡ some e
      → (count_endpoints (without_endpoint m id p) == 0 && not (without_endpoint m id p).is_alive)
        ≡ false
      → remove_from_participants m ptid id ps
        ≡ (true, modify participant_guid ptid (without_endpoint m id) ps)
  unfolding remove_from_participants
  remove_kept ptid id ps p e f g more =
      ground (arith, seek-find participant_guid ptid ps, seek-find m.guid id (m.members p))

  pub remove_cases {ℓ} :
      (P : Bool × Participants → Type ℓ) (ptid id : Guid) (ps : Participants)
      → (find participant_guid ptid ps ≡ none → P (false, ps))
      → ((p : ParticipantDiscoveryItem)
          → find participant_guid ptid ps ≡ some p
          → find m.guid id (m.members p) ≡ none
          → P (false, ps))
      → ((p : ParticipantDiscoveryItem) (e : T)
          → find participant_guid ptid ps ≡ some p
          → find m.guid id (m.members p) ≡ some e
          → (count_endpoints (without_endpoint m id p) == 0
              && not (without_endpoint m id p).is_alive)
            ≡ true
          → P (
            true,
            erase participant_guid ptid (modify participant_guid ptid (without_endpoint m id) ps),
          ))
      → ((p : ParticipantDiscoveryItem) (e : T)
          → find participant_guid ptid ps ≡ some p
          → find m.guid id (m.members p) ≡ some e
          → (count_endpoints (without_endpoint m id p) == 0
              && not (without_endpoint m id p).is_alive)
            ≡ false
          → P (true, modify participant_guid ptid (without_endpoint m id) ps))
      → P (remove_from_participants m ptid id ps)
  remove_cases P ptid id ps unknown missing last kept =
      elim (Option-cases (find participant_guid ptid ps)) [
        | inl f ↦ subst P (sym (remove_unknown ptid id ps f)) (unknown f)
        | inr (p, f) ↦ elim (Option-cases (find m.guid id (m.members p))) [
          | inl g ↦ subst P (sym (remove_missing ptid id ps p f g)) (missing p f g)
          | inr (e, g) ↦
              elim (Bool-cases (
                count_endpoints (without_endpoint m id p) == 0
                && not (without_endpoint m id p).is_alive)) [
                  | inl h ↦ subst P (sym (remove_last ptid id ps p e f g h)) (last p e f g h)
                  | inr h ↦ subst P (sym (remove_kept ptid id ps p e f g h)) (kept p e f g h)
                ]
        ]
      ]

  -- AddEndPoint where the participant is there already, or where another stands behind it.
  pub add_behind :
      (spokesman ptid id : Guid) (type topic : String) (t now : TimePoint) (ps : Participants)
      (p : ParticipantDiscoveryItem)
      → ptid ≢ spokesman
      → lower_bound participant_guid ptid ps ≡ some p
      → add_to_participants m spokesman ptid id type topic t now ps
        ≡ modify participant_guid p.endpoint_guid (enter_endpoint m id type topic t) ps
  unfolding add_to_participants
  add_behind spokesman ptid id type topic t now ps p other l = ground arith

  -- AddEndPoint where the participant is entered first.
  pub add_entered :
      (spokesman ptid id : Guid) (type topic : String) (t now : TimePoint) (ps : Participants)
      → (is_none (lower_bound participant_guid ptid ps) || ptid == spokesman) ≡ true
      → add_to_participants m spokesman ptid id type topic t now ps
        ≡ modify participant_guid ptid (enter_endpoint m id type topic t) (
            modify participant_guid ptid
              (acknowledge (ptid == spokesman))
              (emplace participant_guid (new_participant ptid "" false now) ps))
  unfolding add_to_participants
  add_entered spokesman ptid id type topic t now ps h = ground arith

  pub add_cases {ℓ} :
      (P : Participants → Type ℓ) (spokesman ptid id : Guid) (type topic : String)
      (t now : TimePoint) (ps : Participants)
      → ((is_none (lower_bound participant_guid ptid ps) || ptid == spokesman) ≡ true
          → P (
              modify participant_guid ptid
                (λ p. enter_endpoint m id type topic t (acknowledge (ptid == spokesman) p))
                (emplace participant_guid (new_participant ptid "" false now) ps)))
      → ((p : ParticipantDiscoveryItem)
          → ptid ≢ spokesman
          → lower_bound participant_guid ptid ps ≡ some p
          → P (modify participant_guid p.endpoint_guid (enter_endpoint m id type topic t) ps))
      → P (add_to_participants m spokesman ptid id type topic t now ps)
  unfolding acknowledge
  add_cases P spokesman ptid id type topic t now ps entered behind =
      elim (Bool-cases (is_none lb || ptid == spokesman)) [
        | inl h ↦
            subst P
              (sym (
                add_entered spokesman ptid id type topic t now ps h
                ∙ modify-modify participant_guid ptid _ (acknowledge (ptid == spokesman)) _
                    (λ p. refl)))
              (entered h)
        | inr h ↦ elim (Option-cases lb) [
          | inl e ↦ absurd (ground arith)
          | inr (p, e) ↦
              let other : ptid ≢ spokesman = ground arith in
              subst P (sym (add_behind spokesman ptid id type topic t now ps p other e))
                (behind p other e)
        ]
      ]
    where
      lb : Option ParticipantDiscoveryItem
      lb = lower_bound participant_guid ptid ps
