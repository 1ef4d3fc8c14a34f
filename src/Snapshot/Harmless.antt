-- ===== src/Snapshot/Harmless.antt =====
-- The reloading of a snapshot changes nothing that the comparison of its databases notices,
-- src/DiscoveryItem.cpp.
use discovery_server.Prelude.{◌≡◌, refl, ap₂, Bool, ◌&&◌, List, [], ◌∷◌, map}
use discovery_server.Item.{
  Guid, TimePoint, ParticipantDiscoveryItem, DataReaderDiscoveryItem, DataWriterDiscoveryItem,
}
use discovery_server.Item.Equality.{set_eq, participant_ne, reader_eq, writer_eq}
use discovery_server.Compare.{database_eq}
use discovery_server.Compare.Mapped.{IsHarmless, database_eq-changed}
use discovery_server.Snapshot.{ParticipantDiscoveryDatabase}
use discovery_server.Snapshot.Reloaded.{
  reloaded_reader, reloaded_writer, reloaded_participant, reloaded_database,
}
use discovery_server.Xml.{GuidText}

set_eq-map {ℓ} :
    {A : Type ℓ} (eq : A → A → Bool) (f f' : A → A)
    → ((a b : A) → eq (f a) (f' b) ≡ eq a b)
    → (xs ys : List A) → set_eq eq (map f xs) (map f' ys) ≡ set_eq eq xs ys
unfolding set_eq
set_eq-map eq f f' same [] [] = refl
set_eq-map eq f f' same [] (y ∷ ys) = refl
set_eq-map eq f f' same (x ∷ xs) [] = refl
set_eq-map eq f f' same (x ∷ xs) (y ∷ ys) =
    ap₂ (λ a b. a && b) (same x y) (set_eq-map eq f f' same xs ys)

module _ (g : GuidText) (startup startup' : TimePoint) (show : Bool) where
  readers_same :
      (o o' : Guid) (a b : List DataReaderDiscoveryItem)
      → set_eq reader_eq
          (map (reloaded_reader g startup startup' show o) a)
          (map (reloaded_reader g startup startup' show o') b)
        ≡ set_eq reader_eq a b
  unfolding reader_eq
  readers_same o o' a b =
      set_eq-map reader_eq (reloaded_reader g startup startup' show o)
        (reloaded_reader g startup startup' show o') (λ a b. refl) a b

  writers_same :
      (a b : List DataWriterDiscoveryItem)
      → set_eq writer_eq
          (map (reloaded_writer g startup startup' show) a)
          (map (reloaded_writer g startup startup' show) b)
        ≡ set_eq writer_eq a b
  unfolding writer_eq
  writers_same a b =
      set_eq-map writer_eq (reloaded_writer g startup startup' show)
        (reloaded_writer g startup startup' show) (λ a b. refl) a b

  same_ne_lem :
      (o o' : Guid) (p q : ParticipantDiscoveryItem)
      → participant_ne
          (reloaded_participant g startup startup' show o p)
          (reloaded_participant g startup startup' show o' q)
        ≡ participant_ne p q
  unfolding participant_ne
  same_ne_lem o o' p q =
      rw (writers_same p.datawriters q.datawriters, readers_same o o' p.datareaders q.datareaders)
        refl

  reloaded_participant-IsHarmless : IsHarmless (reloaded_participant g startup startup' show)
  reloaded_participant-IsHarmless = record {
    same_guid = λ o p. refl;
    same_life = λ o p. refl;
    same_ne = same_ne_lem;
  }

  pub database_eq-reloaded_database :
      (a b : ParticipantDiscoveryDatabase)
      → database_eq
          (reloaded_database g startup startup' show a)
          (reloaded_database g startup startup' show b)
        ≡ database_eq a b
  database_eq-reloaded_database a b =
      database_eq-changed (reloaded_participant g startup startup' show)
        reloaded_participant-IsHarmless "" a b
