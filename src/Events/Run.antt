-- ===== src/Events/Run.antt =====
-- The operator () of every event, src/LateJoiner.cpp, and runEvents, src/DiscoveryServerManager.cpp.
use discovery_server.Prelude.{◌≡◌, refl, Bool, none, some, List, [], ◌∷◌, String, if◌then◌else◌}
use discovery_server.Outcome.{Outcome, done, aborted, ◌>>=◌}
use discovery_server.Item.{TimePoint}
use discovery_server.Manager.{Pointer, take_snapshot}
use discovery_server.Dds.{Dds}
use discovery_server.Events.{
  DelayedSnapshot, Event, participant_creation, participant_destruction, endpoint_creation,
  endpoint_destruction, snapshot, environment_modification, Process, event_at,
}
use discovery_server.Events.Participants.{create_participant, destroy_participant}
use discovery_server.Events.Endpoints.{create_delayed_endpoint, destroy_endpoint}

-- `has_file` is that the variable FASTDDS_ENVIRONMENT_FILE is set.
module _ (d : Dds) (ndebug has_file : Bool) where
  -- DelayedSnapshot::operator (); `none` of takeSnapshot is a loop that does not end.
  unfoldable pub take_delayed_snapshot :
      TimePoint → DelayedSnapshot → Process d → Outcome (Process d)
  take_delayed_snapshot now s r =
      elim (take_snapshot now s.description s.if_someone s.show_liveliness r.manager) [
        | none ↦ aborted
        | some m ↦ done (record r { manager = m })
      ]

  -- DelayedEnvironmentModification::operator ().
  unfoldable pub modify_environment : String → String → Process d → Process d
  modify_environment key value r =
      if has_file then record r { environment = some (key, value) } else r

  unfoldable pub execute : TimePoint → Pointer → Event d.Qos → Process d → Outcome (Process d)
  unfolding create_participant destroy_participant create_delayed_endpoint destroy_endpoint
      take_delayed_snapshot modify_environment
  execute now self (participant_creation c) r = create_participant d ndebug self c r
  execute now self (participant_destruction t id) r = done (destroy_participant d ndebug id r)
  execute now self (endpoint_creation kind c) r = create_delayed_endpoint d ndebug kind c r
  execute now self (endpoint_destruction kind t id) r = done (destroy_endpoint d ndebug kind id r)
  execute now self (snapshot s) r = take_delayed_snapshot now s r
  execute now self (environment_modification t key value) r = done (modify_environment key value r)

  -- The loop of runEvents behind the sort: the pointers in their order, each with what the clock
  -- shows when the wait is over.
  unfoldable pub run_events : List (Pointer × TimePoint) → Process d → Outcome (Process d)
  run_events [] r = done r
  run_events (e ∷ es) r = elim (event_at e.0 r.events) [
    | none ↦ aborted
    | some event ↦ do r' ← execute e.1 e.0 event r; run_events es r'
  ]

  pub run_events_step :
      (p : Pointer) (now : TimePoint) (es : List (Pointer × TimePoint)) (event : Event d.Qos)
      (r r' : Process d)
      → event_at p r.events ≡ some event
      → execute now p event r ≡ done r'
      → run_events ((p, now) ∷ es) r ≡ run_events es r'
  unfolding run_events
  run_events_step p now es event r r' here e = rw (here, e, run_events) refl

  pub run_events_aborts :
      (p : Pointer) (now : TimePoint) (es : List (Pointer × TimePoint)) (event : Event d.Qos)
      (r : Process d)
      → event_at p r.events ≡ some event
      → execute now p event r ≡ aborted
      → run_events ((p, now) ∷ es) r ≡ aborted
  unfolding run_events
  run_events_aborts p now es event r here e = rw (here, e, run_events) refl
