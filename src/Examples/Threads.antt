-- ===== src/Examples/Threads.antt =====
-- Sequences of operations, from the image of the tests and from a fresh one.
use discovery_server.Prelude.{◌≡◌, refl, true, false, some, ◌<◌}
use discovery_server.Prelude.Int.{pos}
use discovery_server.Outcome.{done}
use discovery_server.OrderedSet.{lower_bound, find, seek, at_key, emplace, modify}
use discovery_server.Item.{ParticipantDiscoveryItem, new_participant, acknowledge, count_endpoints}
use discovery_server.Item.EndPoint.{readers}
use discovery_server.Snapshot.{
  Snapshot, new_snapshot, new_database, write_participants, access_snapshot,
}
use discovery_server.Snapshot.Lookup.{participant_at}
use discovery_server.Database.{add_end_point, add_to_participants, enter_endpoint}
use discovery_server.Database.Members.{add_data_reader}
use discovery_server.Database.WellFormed.{IsWellFormed}
use discovery_server.Database.Steps.{
  here, next, participant_added, reader_added, Reach-IsWellFormed, zombie_owns-Reach,
}
use discovery_server.Examples.{image-IsWellFormed}
use discovery_server.Examples.Operations.{with_participant, add_participant_run}

Reach-IsWellFormed_example : IsWellFormed with_participant
Reach-IsWellFormed_example =
    Reach-IsWellFormed true (λ g. g) image-IsWellFormed
      (next here (participant_added 1 "one" 7 "new" (pos 8) false (pos 9) true add_participant_run))

abbrev fresh : Snapshot
fresh = new_snapshot (pos 0) (pos 1) (pos 1) (pos 1) true false

-- A reader of the unknown participant 9.
abbrev reached : Snapshot
reached =
    write_participants 1 (add_to_participants readers 1 9 31 "HelloWorld" "topic" (pos 8) (pos 9))
      (access_snapshot 1 "one" fresh)

abbrev unseen : ParticipantDiscoveryItem
unseen =
    enter_endpoint readers 31 "HelloWorld" "topic" (pos 8)
      (acknowledge false (new_participant 9 "" false (pos 9)))

reached_run :
    add_data_reader true 1 "one" 9 31 "HelloWorld" "topic" (pos 8) (pos 9) fresh
    ≡ done (true, reached)
unfolding add_data_reader add_end_point
reached_run = refl

unseen-reached : participant_at 1 9 reached ≡ some unseen
unfolding find access_snapshot write_participants add_to_participants new_snapshot emplace modify
    seek at_key lower_bound new_database readers
unseen-reached = refl

unseen_dead : unseen.is_alive ≡ false
unfolding enter_endpoint readers acknowledge
unseen_dead = refl

zombie_owns-Reach_example : 0 < count_endpoints unseen
zombie_owns-Reach_example =
    zombie_owns-Reach true (λ g. g) (pos 0) (pos 1) (pos 1) (pos 1) true false 1 9
      (next here (reader_added 1 "one" 9 31 "HelloWorld" "topic" (pos 8) (pos 9) true reached_run))
      unseen-reached unseen_dead
