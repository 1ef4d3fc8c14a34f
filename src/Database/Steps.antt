-- ===== src/Database/Steps.antt =====
-- The database as its threads see it: `database_mutex` makes every operation one step, in any
-- order, with any arguments.
use discovery_server.Prelude.{◌≡◌, Bool, false, String, subst, sym, ◌∙◌, ◌<◌, some}
use discovery_server.Prelude.Int.{ℤ}
use discovery_server.Outcome.{done}
use discovery_server.Item.{Guid, TimePoint, ParticipantDiscoveryItem, count_endpoints}
use discovery_server.Item.EndPoint.{readers, writers}
use discovery_server.OrderedSet.Lookup.{All-find}
use discovery_server.Snapshot.{Snapshot, new_snapshot, participants_of}
use discovery_server.Snapshot.Lookup.{participant_at, participant_at-participants_of}
use discovery_server.Database.{add_participant, remove_database, remove_participant}
use discovery_server.Database.Members.{
  add_data_reader, add_data_writer, remove_data_reader, remove_data_writer, update_sub_liveliness,
}
use discovery_server.Database.Invariant.{IsValidItem}
use discovery_server.Database.WellFormed.{
  IsWellFormed, IsGood, add_participant-IsGood, remove_database-IsWellFormed,
  remove_participant-IsWellFormed, add_end_point-IsGood, remove_end_point-IsWellFormed,
  update_sub_liveliness-IsWellFormed,
}
use discovery_server.Database.Participants.{participants_of-AreValid}

module _ (ndebug : Bool) (owner_of : Guid → Guid) where
  pub data Step (s s' : Snapshot) : Type 0 where
    participant_added :
        (spokesman : Guid) (src : String) (ptid : Guid) (name : String) (t : TimePoint)
        (server : Bool) (now : TimePoint) (r : Bool)
        → add_participant ndebug spokesman src ptid name t server now s ≡ done (r, s')
        → Step s s'
    participant_removed :
        (spokesman ptid : Guid) → (remove_participant spokesman ptid s).1 ≡ s' → Step s s'
    database_removed : (deceased : Guid) → (remove_database deceased s).1 ≡ s' → Step s s'
    reader_added :
        (spokesman : Guid) (src : String) (ptid sid : Guid) (type topic : String)
        (t now : TimePoint) (r : Bool)
        → add_data_reader ndebug spokesman src ptid sid type topic t now s ≡ done (r, s')
        → Step s s'
    writer_added :
        (spokesman : Guid) (src : String) (ptid pid : Guid) (type topic : String)
        (t now : TimePoint) (r : Bool)
        → add_data_writer ndebug spokesman src ptid pid type topic t now s ≡ done (r, s')
        → Step s s'
    reader_removed :
        (spokesman ptid sid : Guid) → (remove_data_reader spokesman ptid sid s).1 ≡ s' → Step s s'
    writer_removed :
        (spokesman ptid pid : Guid) → (remove_data_writer spokesman ptid pid s).1 ≡ s' → Step s s'
    liveliness_updated :
        (subs : Guid) (alive_count not_alive_count : ℤ)
        → update_sub_liveliness owner_of subs alive_count not_alive_count s ≡ s'
        → Step s s'

  pub data Reach (s : Snapshot) : Snapshot → Type 0 where
    here : Reach s s
    next : {t u : Snapshot} → Reach s t → Step t u → Reach s u

  Step-IsWellFormed : {s s' : Snapshot} → Step s s' → IsWellFormed s → IsWellFormed s'
  unfolding add_data_reader add_data_writer remove_data_reader remove_data_writer
  Step-IsWellFormed {s} (participant_added spokesman src ptid name t server now r e) w =
      subst IsGood e (add_participant-IsGood ndebug spokesman src ptid name t server now s w)
  Step-IsWellFormed {s} (participant_removed spokesman ptid e) w =
      subst IsWellFormed e (remove_participant-IsWellFormed spokesman ptid s w)
  Step-IsWellFormed {s} (database_removed deceased e) w =
      subst IsWellFormed e (remove_database-IsWellFormed deceased s w)
  Step-IsWellFormed {s} (reader_added spokesman src ptid sid type topic t now r e) w =
      subst IsGood e
        (add_end_point-IsGood readers ndebug spokesman src ptid sid type topic t now s w)
  Step-IsWellFormed {s} (writer_added spokesman src ptid pid type topic t now r e) w =
      subst IsGood e
        (add_end_point-IsGood writers ndebug spokesman src ptid pid type topic t now s w)
  Step-IsWellFormed {s} (reader_removed spokesman ptid sid e) w =
      subst IsWellFormed e (remove_end_point-IsWellFormed readers spokesman ptid sid s w)
  Step-IsWellFormed {s} (writer_removed spokesman ptid pid e) w =
      subst IsWellFormed e (remove_end_point-IsWellFormed writers spokesman ptid pid s w)
  Step-IsWellFormed {s} (liveliness_updated subs a n e) w =
      subst IsWellFormed e (update_sub_liveliness-IsWellFormed owner_of subs a n s w)

  -- From a well-formed image every sequence of operations in which no assertion fails, of any
  -- threads and with any arguments,
  -- leads to a well-formed image: all sets in strict GUID order, and every zombie owns an endpoint.
  pub Reach-IsWellFormed : {s s' : Snapshot} → IsWellFormed s → Reach s s' → IsWellFormed s'
  Reach-IsWellFormed w here = w
  Reach-IsWellFormed w (next r st) = Step-IsWellFormed st (Reach-IsWellFormed w r)

  pub new_snapshot-IsWellFormed :
      (clock t pdp edp : TimePoint) (someone show : Bool)
      → IsWellFormed (new_snapshot clock t pdp edp someone show)
  unfolding new_snapshot
  new_snapshot-IsWellFormed clock t pdp edp someone show = record { ordered = tt; valid = tt }

  -- Whatever operations have run on the fresh image of the constructor, a participant that some
  -- spokesman knows as dead still owns an endpoint.
  pub zombie_owns-Reach :
      (clock t pdp edp : TimePoint) (someone show : Bool) {s : Snapshot} (k p : Guid)
      {q : ParticipantDiscoveryItem}
      → Reach (new_snapshot clock t pdp edp someone show) s
      → participant_at k p s ≡ some q
      → q.is_alive ≡ false
      → 0 < count_endpoints q
  zombie_owns-Reach clock t pdp edp someone show {s} k p r known =
      (All-find _ IsValidItem p (participants_of k s)
        (sym (participant_at-participants_of k p s) ∙ known)
        (participants_of-AreValid k s (
          Reach-IsWellFormed (new_snapshot-IsWellFormed clock t pdp edp someone show)
            r)).1).zombie_owns
