-- ===== src/Examples/Operations.antt =====
-- The operations of DiscoveryItemDatabase at the image of the tests.
use discovery_server.Prelude.{
  ◌+◌, ◌≡◌, inr, refl, true, false, not, none, some, arith, if◌then◌else◌, is_none,
}
use discovery_server.Prelude.Int.{pos}
use discovery_server.Outcome.{done}
use discovery_server.OrderedSet.{find, erase}
use discovery_server.Item.{Guid, ParticipantDiscoveryItem, new_participant, count_endpoints}
use discovery_server.Item.EndPoint.{readers}
use discovery_server.Snapshot.{
  Snapshot, new_database, write_participants, access_snapshot, participants_of,
}
use discovery_server.Snapshot.Lookup.{participant_at, database_at}
use discovery_server.Database.{
  register, add_participant, remove_participant, add_end_point, add_to_participants,
  remove_end_point, without_endpoint,
}
use discovery_server.Database.Members.{
  add_data_reader, count_participants, count_readers_of, count_writers_of,
}
use discovery_server.Database.Participants.{registered, participant_at-add_participant}
use discovery_server.Database.Assertions.{is_aborted, is_aborted-add_participant}
use discovery_server.Database.Removal.{
  buried, participant_at-remove_participant, remove_participant_enters,
}
use discovery_server.Database.Entering.{
  HasEntered, add_end_point_known, add_end_point_misfiled, add_end_point_entered,
}
use discovery_server.Database.EndpointRemoval.{participant_at-remove_end_point, remove-add}
use discovery_server.Database.Counts.{
  count_participants-add_participant, count_readers_of-add_data_reader,
}
use discovery_server.Examples.{living, zombie, image, image-IsWellFormed}

-- What the operations leave behind, on the image.
abbrev pub with_participant : Snapshot
with_participant =
    write_participants 1 (register 7 "new" false (pos 9) (pos 8)) (access_snapshot 1 "one" image)

pub add_participant_run :
    add_participant true 1 "one" 7 "new" (pos 8) false (pos 9) image ≡ done (true, with_participant)
unfolding add_participant
add_participant_run = refl

participant_at-add_participant_example :
    participant_at 1 7 with_participant
    ≡ some (registered 7 "new" false (pos 9) (pos 8) (participant_at 1 7 image))
participant_at-add_participant_example =
    participant_at-add_participant true 1 "one" 7 "new" (pos 8) false (pos 9) image 1 7
      image-IsWellFormed add_participant_run

count_participants-add_participant_example :
    count_participants 1 with_participant
    ≡ count_participants 1 image + (if is_none (participant_at 1 7 image) then 1 else 0)
count_participants-add_participant_example =
    count_participants-add_participant true 1 "one" 7 "new" (pos 8) false (pos 9) image 1
      image-IsWellFormed add_participant_run

participant_at-remove_participant_example :
    ((remove_participant 1 3 image).0 ≡ not (is_none (participant_at 1 3 image)))
    × (participant_at 1 3 (remove_participant 1 3 image).1 ≡ buried (participant_at 1 3 image))
participant_at-remove_participant_example =
    participant_at-remove_participant 1 3 image 1 3 image-IsWellFormed

remove_participant_enters_example :
    ((remove_participant 4 3 image).0 ≡ false)
    × (database_at 4 (remove_participant 4 3 image).1 ≡ some (new_database 4 ""))
unfolding find
remove_participant_enters_example = remove_participant_enters 4 3 image image-IsWellFormed refl

abbrev with_reader : Guid → Snapshot
with_reader ptid =
    write_participants 1
      (add_to_participants readers 1 ptid 31 "HelloWorld" "topic" (pos 8) (pos 9))
      (access_snapshot 1 "one" image)

add_end_point_run :
    (ptid : Guid)
    → add_end_point readers true 1 "one" ptid 31 "HelloWorld" "topic" (pos 8) (pos 9) image
      ≡ done (true, with_reader ptid)
unfolding add_end_point
add_end_point_run ptid = refl

add_end_point_known_example :
    (q' : ParticipantDiscoveryItem) × HasEntered readers 31 "HelloWorld" "topic" (pos 8) living q'
    × (participant_at 1 3 (with_reader 3) ≡ some q')
unfolding find
add_end_point_known_example =
    add_end_point_known readers true 1 "one" 3 31 "HelloWorld" "topic" (pos 8) (pos 9) image
      image-IsWellFormed (add_end_point_run 3) 1 3 (λ e. omega (arith, e)) refl

add_end_point_misfiled_example :
    (q' : ParticipantDiscoveryItem) × HasEntered readers 31 "HelloWorld" "topic" (pos 8) zombie q'
    × (participant_at 1 5 (with_reader 4) ≡ some q')
unfolding find participants_of
add_end_point_misfiled_example =
    add_end_point_misfiled readers true 1 "one" 4 31 "HelloWorld" "topic" (pos 8) (pos 9) image
      image-IsWellFormed (add_end_point_run 4) 1 5 (λ e. omega (arith, e)) (omega arith) refl
      (refl, (refl, tt))

add_end_point_entered_example :
    (q' : ParticipantDiscoveryItem) × HasEntered readers 31 "HelloWorld" "topic"
      (pos 8)
      (record (new_participant 9 "" false (pos 9)) { is_alive = false })
      q'
    × (participant_at 1 9 (with_reader 9) ≡ some q')
unfolding find participants_of
add_end_point_entered_example =
    add_end_point_entered readers true 1 "one" 9 31 "HelloWorld" "topic" (pos 8) (pos 9) image
      image-IsWellFormed (add_end_point_run 9) 1 9 (inr (omega arith, (omega arith, tt)))

participant_at-remove_end_point_example :
    ((remove_end_point readers 1 5 51 image).0 ≡ true)
    × (participant_at 1 5 (remove_end_point readers 1 5 51 image).1 ≡ none)
unfolding find readers count_endpoints without_endpoint erase
participant_at-remove_end_point_example =
    participant_at-remove_end_point readers 1 5 51 image 1 5 image-IsWellFormed

remove-add_example :
    ((remove_end_point readers 1 3 31 (with_reader 3)).0 ≡ true)
    × (participant_at 1 3 (remove_end_point readers 1 3 31 (with_reader 3)).1
        ≡ participant_at 1 3 image)
unfolding find readers
remove-add_example =
    remove-add readers true 1 "one" 3 31 "HelloWorld" "topic" (pos 8) (pos 9) image 1 3
      image-IsWellFormed (λ e. omega (arith, e)) refl refl (add_end_point_run 3)

add_data_reader_run :
    add_data_reader true 1 "one" 3 31 "HelloWorld" "topic" (pos 8) (pos 9) image
    ≡ done (true, with_reader 3)
unfolding add_data_reader
add_data_reader_run = add_end_point_run 3

count_readers_of-add_data_reader_example :
    (count_readers_of 1 (with_reader 3) ≡ count_readers_of 1 image + 1)
    × (count_writers_of 1 (with_reader 3) ≡ count_writers_of 1 image)
    × (count_participants 1 (with_reader 3) ≡ count_participants 1 image)
unfolding find readers
count_readers_of-add_data_reader_example =
    count_readers_of-add_data_reader true 1 "one" 3 31 "HelloWorld" "topic" (pos 8) (pos 9) image
      {q = living} image-IsWellFormed (λ e. omega (arith, e)) refl add_data_reader_run

-- A living client that is reported as a server, in a build with assertions.
is_aborted-add_participant_example :
    is_aborted (add_participant false 1 "one" 3 "client" (pos 8) true (pos 9) image) ≡ true
unfolding find
is_aborted-add_participant_example =
    is_aborted-add_participant false 1 "one" 3 "client" (pos 8) true (pos 9) image
      image-IsWellFormed
