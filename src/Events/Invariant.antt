-- ===== src/Events/Invariant.antt =====
-- What holds of the manager whatever events run, src/LateJoiner.cpp.
use discovery_server.Prelude.{
  subst, Bool, none, some, List, [], ◌∷◌, Option-cases, inl, inr, Bool-cases,
}
use discovery_server.Outcome.{done, aborted, Outcome-cases}
use discovery_server.Item.{TimePoint}
use discovery_server.Manager.{Pointer, take_snapshot, completed, managed}
use discovery_server.Dds.{Dds}
use discovery_server.Events.{
  Event, participant_creation, participant_destruction, endpoint_creation, endpoint_destruction,
  snapshot, environment_modification, Process, event_at, DelayedSnapshot,
}
use discovery_server.Events.Participants.{create_participant}
use discovery_server.Events.Run.{take_delayed_snapshot, modify_environment, execute, run_events}
use discovery_server.Events.Tracked.{IsTracked, TrackedAfter, with_snapshots}
use discovery_server.Events.TrackedEndpoints.{
  create_delayed_endpoint-IsTracked, destroy_endpoint-IsTracked,
}
use discovery_server.Events.TrackedParticipants.{IsNewIn, enter_participant-IsTracked}
use discovery_server.Events.TrackedDestruction.{destroy_participant-IsTracked}

module _ (d : Dds) (ndebug has_file : Bool) where
  -- The participant that an event creates has a GUID that is new to the maps by role.
  abbrev pub BringsNew : Event d.Qos → Process d → Type 0
  BringsNew (participant_creation c) r = IsNewIn d (d.create_participant c.qos r.world).0 r.manager
  BringsNew (participant_destruction t id) r = Unit {0}
  BringsNew (endpoint_creation kind c) r = Unit {0}
  BringsNew (endpoint_destruction kind t id) r = Unit {0}
  BringsNew (snapshot s) r = Unit {0}
  BringsNew (environment_modification t key value) r = Unit {0}

  -- Each event of the run does so, when its turn comes.
  unfoldable pub EachNew : List (Pointer × TimePoint) → Process d → Type 0
  EachNew [] r = Unit {0}
  EachNew (e ∷ es) r = elim (event_at e.0 r.events) [
    | none ↦ Unit {0}
    | some event ↦ BringsNew event r × elim (execute d ndebug has_file e.1 e.0 event r) [
      | aborted ↦ Unit {0}
      | done r' ↦ EachNew es r'
    ]
  ]

  take_delayed_snapshot-IsTracked :
      (now : TimePoint) (s : DelayedSnapshot) (r : Process d)
      → IsTracked d r.manager
      → TrackedAfter d (take_delayed_snapshot d ndebug has_file now s r)
  unfolding take_delayed_snapshot take_snapshot
  take_delayed_snapshot-IsTracked now s r o =
      elim (Option-cases (completed (managed r.manager) r.manager.state.databases)) [
        | inl e ↦ rw (e, take_delayed_snapshot, take_snapshot) tt
        | inr (dbs, e) ↦
            rw (e, take_delayed_snapshot, take_snapshot) (with_snapshots d r.manager o _)
      ]

  execute-IsTracked :
      (now : TimePoint) (self : Pointer) (event : Event d.Qos) (r : Process d)
      → IsTracked d r.manager
      → BringsNew event r
      → TrackedAfter d (execute d ndebug has_file now self event r)
  unfolding execute create_participant modify_environment
  execute-IsTracked now self (participant_creation c) r o n =
      enter_participant-IsTracked d ndebug self c (d.create_participant c.qos r.world).0 _ r o n
  execute-IsTracked now self (participant_destruction t id) r o n =
      destroy_participant-IsTracked d ndebug id r o
  execute-IsTracked now self (endpoint_creation kind c) r o n =
      create_delayed_endpoint-IsTracked d ndebug kind c r o
  execute-IsTracked now self (endpoint_destruction kind t id) r o n =
      destroy_endpoint-IsTracked d ndebug kind id r o
  execute-IsTracked now self (snapshot s) r o n = take_delayed_snapshot-IsTracked now s r o
  execute-IsTracked now self (environment_modification t key value) r o n =
      elim (Bool-cases has_file) [ inl e ↦ rw e o | inr e ↦ rw e o ]

  -- Whatever events run, in whatever order and at whatever times, where Fast DDS gives each created
  -- participant a GUID that no participant of the manager has at that time, on a manager in order of
  -- which the following holds: if the run comes to its end, it still holds. Under every GUID the map
  -- of created entities has the participant that the maps of servers, clients and simple
  -- participants have, or none where they have none; no two of these maps have the same GUID; and
  -- each participant is under its own GUID.
  pub run_events-IsTracked :
      (es : List (Pointer × TimePoint)) (r : Process d)
      → IsTracked d r.manager
      → EachNew es r
      → TrackedAfter d (run_events d ndebug has_file es r)
  unfolding run_events EachNew
  run_events-IsTracked [] r o n = o
  run_events-IsTracked (e ∷ es) r o n = elim (Option-cases (event_at e.0 r.events)) [
    | inl h ↦ rw (h, run_events) tt
    | inr (event, h) ↦ elim (Outcome-cases (execute d ndebug has_file e.1 e.0 event r)) [
      | inr f ↦ rw (h, f, run_events) tt
      | inl (r', f) ↦
          let n' = rw (h, f, EachNew) at n in
          rw (h, f, run_events)
            (run_events-IsTracked es r'
              (subst (TrackedAfter d) f (execute-IsTracked e.1 e.0 event r o n'.0)) n'.1)
    ]
  ]
