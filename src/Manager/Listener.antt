-- ===== src/Manager/Listener.antt =====
-- What the callbacks of DiscoveryServerManager, one after the other, do to its database.
use discovery_server.Prelude.{
  ◌≡◌, refl, sym, ap, subst, Bool, some, List, [], ◌∷◌, String, arith, is_none, Bool-cases, inl,
  inr, ℕ,
}
use discovery_server.Prelude.Int.{ℤ}
use discovery_server.Outcome.{Outcome-cases, Outcome, done, aborted}
use discovery_server.Item.{Guid, TimePoint}
use discovery_server.Snapshot.{Snapshot}
use discovery_server.Database.WellFormed.{IsWellFormed}
use discovery_server.Database.Steps.{
  Step, Reach, here, next, Reach-IsWellFormed, participant_added, participant_removed,
  database_removed, reader_added, writer_added, reader_removed, writer_removed, liveliness_updated,
}
use discovery_server.Manager.{Manager, take_snapshot}
use discovery_server.Manager.Managed.{take_snapshot_enters_managed}
use discovery_server.Manager.Maps.{get_participant, take_out, remove_participant}
use discovery_server.Manager.Callbacks.{
  Origin, ParticipantStatus, EndPointStatus, ParticipantInfo, EndPointInfo, with_state,
  participant_reported, on_participant_discovery, reader_reported, on_data_reader_discovery,
  writer_reported, on_data_writer_discovery, on_liveliness_changed, discovered_participant,
  removed_participant, dropped_participant, other_status, discovered_endpoint, removed_endpoint,
  other_reason,
}

-- The members through which the database changes, with their arguments.
pub data Event : Type 0 where
  participant_discovery :
      Origin → TimePoint → TimePoint → ParticipantStatus → ParticipantInfo → Event
  data_reader_discovery : Origin → TimePoint → TimePoint → EndPointStatus → EndPointInfo → Event
  data_writer_discovery : Origin → TimePoint → TimePoint → EndPointStatus → EndPointInfo → Event
  liveliness_changed : Guid → ℤ → ℤ → Event
  participant_removal : Guid → Event

module _ (ndebug : Bool) (owner_of : Guid → Guid) (prefix : Guid → ℕ) where
  abbrev pub handle : Event → Manager → Outcome Manager
  handle (participant_discovery o t now st info) m =
      on_participant_discovery ndebug o t now st info m
  handle (data_reader_discovery o t now st info) m =
      on_data_reader_discovery ndebug o t now st info m
  handle (data_writer_discovery o t now st info) m =
      on_data_writer_discovery ndebug o t now st info m
  handle (liveliness_changed sub a n) m = done (on_liveliness_changed owner_of sub a n m)
  handle (participant_removal id) m = done (remove_participant prefix id m).1

  abbrev Leads : Manager → Manager → Type 0
  Leads m m' = Reach ndebug owner_of m.state m'.state

  -- The image that a call leaves behind, or the one given where an assertion ends the process.
  abbrev state_or : Snapshot → Outcome Manager → Snapshot
  state_or s (done m) = m.state
  state_or s aborted = s

  unchanged : (m : Manager) {m' : Manager} → done m ≡ done m' → Leads m m'
  unchanged m e = subst (Reach ndebug owner_of m.state) (ap (state_or m.state) e) here

  one-Step :
      (m n : Manager) {m' : Manager}
      → Step ndebug owner_of m.state n.state
      → done n ≡ done m'
      → Leads m m'
  one-Step m n st e = subst (Reach ndebug owner_of m.state) (ap (state_or m.state) e) (next here st)

  added :
      (m n : Manager) (o : Outcome (Bool × Snapshot)) {m' : Manager}
      → ((r : Bool) (s : Snapshot) → o ≡ done (r, s) → Step ndebug owner_of m.state s)
      → with_state n o ≡ done m'
      → Leads m m'
  added m n (done (r, s)) st e = one-Step m (record n { state = s }) (st r s refl) e
  added m n aborted st e = cc

  participant_reported-Leads :
      (o : Origin) (t now : TimePoint) (st : ParticipantStatus) (info : ParticipantInfo)
      (server : Bool) (m : Manager) {m' : Manager}
      → participant_reported ndebug o t now st info server m ≡ done m'
      → Leads m m'
  unfolding participant_reported
  participant_reported-Leads o t now discovered_participant info server m e =
      added m m _
        (λ r s. participant_added o.guid o.name info.guid info.participant_name t server now r) e
  participant_reported-Leads o t now removed_participant info server m e =
      one-Step m _ (participant_removed o.guid info.guid refl) e
  participant_reported-Leads o t now dropped_participant info server m e =
      one-Step m _ (participant_removed o.guid info.guid refl) e
  participant_reported-Leads o t now other_status info server m e = unchanged m e

  reader_reported-Leads :
      (o : Origin) (t now : TimePoint) (st : EndPointStatus) (info : EndPointInfo) (m : Manager)
      {m' : Manager}
      → reader_reported ndebug o t now st info m ≡ done m'
      → Leads m m'
  unfolding reader_reported
  reader_reported-Leads o t now discovered_endpoint info m e =
      added m m _
        (λ r s.
          reader_added o.guid o.name info.participant_guid info.guid info.type_name info.topic_name
            t now r)
        e
  reader_reported-Leads o t now removed_endpoint info m e =
      one-Step m _ (reader_removed o.guid info.participant_guid info.guid refl) e
  reader_reported-Leads o t now other_reason info m e = unchanged m e

  writer_reported-Leads :
      (o : Origin) (t now : TimePoint) (st : EndPointStatus) (info : EndPointInfo) (m : Manager)
      {m' : Manager}
      → writer_reported ndebug o t now st info m ≡ done m'
      → Leads m m'
  unfolding writer_reported
  writer_reported-Leads o t now discovered_endpoint info m e =
      added m m _
        (λ r s.
          writer_added o.guid o.name info.participant_guid info.guid info.type_name info.topic_name
            t now r)
        e
  writer_reported-Leads o t now removed_endpoint info m e =
      one-Step m _ (writer_removed o.guid info.participant_guid info.guid refl) e
  writer_reported-Leads o t now other_reason info m e = unchanged m e

  take_out_state : (id : Guid) (m : Manager) → (take_out id m).1.state ≡ m.state
  unfolding take_out
  take_out_state id m = ground arith

  -- A callback from a participant that the manager does not know, and every other call, makes no
  -- step of the database or one.
  handle-Leads : (c : Event) (m : Manager) {m' : Manager} → handle c m ≡ done m' → Leads m m'
  unfolding on_participant_discovery on_data_reader_discovery on_data_writer_discovery
      on_liveliness_changed remove_participant
  handle-Leads (participant_discovery o t now st info) m e =
      elim (Bool-cases (is_none (get_participant o.guid m))) [
        | inl stranger ↦ unchanged m (rw stranger at e)
        | inr ours ↦
            participant_reported-Leads o t now st info _ (record m { last_pdp_callback = t })
              (rw ours at e)
      ]
  handle-Leads (data_reader_discovery o t now st info) m e =
      elim (Bool-cases (is_none (get_participant o.guid m))) [
        | inl stranger ↦ unchanged m (rw stranger at e)
        | inr ours ↦
            reader_reported-Leads o t now st info (record m { last_edp_callback = t })
              (rw ours at e)
      ]
  handle-Leads (data_writer_discovery o t now st info) m e =
      elim (Bool-cases (is_none (get_participant o.guid m))) [
        | inl stranger ↦ unchanged m (rw stranger at e)
        | inr ours ↦
            writer_reported-Leads o t now st info (record m { last_edp_callback = t })
              (rw ours at e)
      ]
  handle-Leads (liveliness_changed sub a n) m e =
      one-Step m (on_liveliness_changed owner_of sub a n m) (liveliness_updated sub a n refl) e
  handle-Leads (participant_removal id) m e =
      one-Step m _ (database_removed id (sym (take_out_state id _))) e

  -- Events one after the other, until an assertion ends the process.
  abbrev pub handle_all : List Event → Manager → Outcome Manager
  handle_all [] m = done m
  handle_all (c ∷ cs) m = elim (handle c m) [ done m' ↦ handle_all cs m' | aborted ↦ aborted ]

  aborted_done : {m : Manager} → aborted ≡ done m → ⊥
  aborted_done e = cc

  -- Any sequence of callbacks and removals that the process survives, from any participants, known
  -- or not, with any reports, takes a well-formed database to a well-formed one, and takeSnapshot
  -- then returns.
  pub handle_all-take_snapshot :
      (cs : List Event) (m : Manager) {m' : Manager} (tp : TimePoint) (desc : String)
      (someone show : Bool)
      → IsWellFormed m.state
      → handle_all cs m ≡ done m'
      → IsWellFormed m'.state
        × ((m'' : Manager) × (take_snapshot tp desc someone show m' ≡ some m''))
  handle_all-take_snapshot [] m {m'} tp desc someone show w e =
      let w' = subst IsWellFormed (ap (state_or m.state) e) w in
      let (dbs, taken, at_zero) =
        take_snapshot_enters_managed tp desc someone show 0 m' w'.ordered in
      (w', (_, taken))
  handle_all-take_snapshot (c ∷ cs) m tp desc someone show w e = elim (Outcome-cases (handle c m)) [
    | inl (n, f) ↦
        handle_all-take_snapshot cs n tp desc someone show
          (Reach-IsWellFormed ndebug owner_of w (handle-Leads c m f)) (rw (f, handle_all) at e)
    | inr f ↦ absurd (aborted_done (rw (f, handle_all) at e))
  ]
