-- ===== src/Manager/Discovery.antt =====
-- What a reported participant becomes: on_participant_discovery of src/DiscoveryServerManager.cpp
-- down to the item in the database.
use discovery_server.Prelude.{
  ◌≡◌, refl, sym, ap, subst, ◌∙◌, Bool, true, false, not, ◌&&◌, Option, none, some, String, arith,
  ◌==◌, if◌then◌else◌, is_none,
}
use discovery_server.OrderedSet.{find}
use discovery_server.Outcome.{Outcome, done, aborted}
use discovery_server.Item.{
  Guid, TimePoint, ParticipantDiscoveryItem, new_participant, set_name, acknowledge, set_server,
  set_discovered_timestamp,
}
use discovery_server.Database.{add_participant, revive}
use discovery_server.Snapshot.{Snapshot}
use discovery_server.Snapshot.Lookup.{participant_at}
use discovery_server.Database.WellFormed.{IsWellFormed}
use discovery_server.Database.Participants.{registered, participant_at-add_participant}
use discovery_server.Manager.{Manager, entry_guid}
use discovery_server.Manager.Maps.{get_participant}
use discovery_server.Manager.Callbacks.{
  Origin, ParticipantInfo, with_state, participant_reported, on_participant_discovery,
  discovered_participant,
}

abbrev manager_or : Manager → Outcome Manager → Manager
manager_or m (done m') = m'
manager_or m aborted = m

with_state-done :
    (n : Manager) {m' : Manager} (o : Outcome (Bool × Snapshot))
    → with_state n o ≡ done m'
    → (r : Bool) × (s : Snapshot) × (o ≡ done (r, s)) × (record n { state = s } ≡ m')
with_state-done n (done (r, s)) e = (r, s, refl, ap (manager_or n) e)
with_state-done n aborted e = cc

registered_alive :
    (ptid : Guid) (name : String) (server : Bool) (now t : TimePoint)
    (q : Option ParticipantDiscoveryItem)
    → (registered ptid name server now t q).is_alive ≡ true
unfolding new_participant revive set_name acknowledge set_server set_discovered_timestamp
registered_alive ptid name server now t none = refl
registered_alive ptid name server now t (some p) = ground arith

reported_here :
    (a b : Guid) (x y : Option ParticipantDiscoveryItem) → (if a == a && b == b then x else y) ≡ x
reported_here a b x y = ground arith

-- With a well-formed database, a participant of the manager that reports the discovery of another one, where no assertion
-- fails: the database then has the other one as alive among what the reporter knows, and the time
-- of the last such report is that of the callback.
pub participant_at-on_participant_discovery :
    (ndebug : Bool) (o : Origin) (t now : TimePoint) (info : ParticipantInfo) (m : Manager)
    {m' : Manager}
    → IsWellFormed m.state
    → is_none (get_participant o.guid m) ≡ false
    → on_participant_discovery ndebug o t now discovered_participant info m ≡ done m'
    → (q : ParticipantDiscoveryItem) × (participant_at o.guid info.guid m'.state ≡ some q)
      × (q.is_alive ≡ true)
      × (m'.last_pdp_callback ≡ t)
unfolding on_participant_discovery participant_reported
participant_at-on_participant_discovery ndebug o t now info m w ours e =
    let server = not m.no_callbacks && not (is_none (find entry_guid info.guid m.servers)) in
    let before = participant_at o.guid info.guid m.state in
    let (r, s, f, g) =
      with_state-done (record m { last_pdp_callback = t })
        (add_participant ndebug o.guid o.name info.guid info.participant_name t server now m.state)
        (rw ours at e) in
    (
      registered info.guid info.participant_name server now t before,
      subst
          (λ n.
            participant_at o.guid info.guid n.state
            ≡ some (registered info.guid info.participant_name server now t before))
          g
          (participant_at-add_participant ndebug o.guid o.name info.guid info.participant_name t
              server now m.state o.guid info.guid w f
            ∙ reported_here o.guid info.guid _ _),
      registered_alive info.guid info.participant_name server now t before,
      sym (ap (λ n. n.last_pdp_callback) g),
    )
