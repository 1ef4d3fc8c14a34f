-- ===== src/Examples/Comparing.antt =====
-- The comparison of two databases at the image of the tests.
use discovery_server.Prelude.{◌≡◌, refl, Bool, true, some, arith}
use discovery_server.OrderedSet.{find}
use discovery_server.Item.Equality.{participant_eq, participant_ne, set_eq}
use discovery_server.Compare.{database_eq}
use discovery_server.Compare.Exact.{database_eq_exact, visible_of}
use discovery_server.Compare.Sound.{database_eq_sound}
use discovery_server.Compare.Relation.{database_eq_terminates, database_eq_refl, database_eq_comm}
use discovery_server.Examples.{first, second}

database_eq_exact_example :
    database_eq first second
    ≡ some (set_eq participant_eq (visible_of first second first) (visible_of first second second))
unfolding find
database_eq_exact_example =
    database_eq_exact first second (λ e. omega (arith, e)) (omega arith, (omega arith, tt))
      (omega arith, tt) refl refl

database_eq_terminates_example : (r : Bool) × (database_eq first second ≡ some r)
database_eq_terminates_example = database_eq_terminates first second

database_eq_refl_example : database_eq first first ≡ some true
database_eq_refl_example = database_eq_refl first

database_eq_comm_example : database_eq first second ≡ database_eq second first
database_eq_comm_example = database_eq_comm first second (λ e. omega (arith, e))

same_databases : database_eq first second ≡ some true
unfolding database_eq participant_ne set_eq
same_databases = refl

database_eq_sound_example :
    set_eq participant_eq (visible_of first second first) (visible_of first second second) ≡ true
database_eq_sound_example =
    database_eq_sound first second (omega arith, (omega arith, tt)) (omega arith, tt) same_databases
