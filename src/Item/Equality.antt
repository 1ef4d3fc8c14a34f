-- ===== src/Item/Equality.antt =====
-- The comparisons of discovery items, src/DiscoveryItem.cpp.
use discovery_server.Prelude.{
  Bool, true, false, not, ◌&&◌, ◌||◌, List, [], ◌∷◌, ◌==◌, str_eq, ◌≡◌, eq_iff, arith, refl,
}
use discovery_server.Item.{
  DataWriterDiscoveryItem, DataReaderDiscoveryItem, ParticipantDiscoveryItem,
}

-- operator == of DataWriterDiscoveryItem: the timestamp does not count.
unfoldable pub writer_eq : DataWriterDiscoveryItem → DataWriterDiscoveryItem → Bool
writer_eq a b =
    a.endpoint_guid == b.endpoint_guid
    && (str_eq a.type_name b.type_name && str_eq a.topic_name b.topic_name)

-- operator == of DataReaderDiscoveryItem: neither the timestamp nor the liveliness counts.
unfoldable pub reader_eq : DataReaderDiscoveryItem → DataReaderDiscoveryItem → Bool
reader_eq a b =
    a.endpoint_guid == b.endpoint_guid
    && (str_eq a.type_name b.type_name && str_eq a.topic_name b.topic_name)

-- operator == of std::set: as many elements, pairwise equal in order.
unfoldable pub set_eq {ℓ} : {A : Type ℓ} → (A → A → Bool) → List A → List A → Bool
set_eq eq [] [] = true
set_eq eq [] (y ∷ ys) = false
set_eq eq (x ∷ xs) [] = false
set_eq eq (x ∷ xs) (y ∷ ys) = eq x y && set_eq eq xs ys

-- operator == of ParticipantDiscoveryItem.
unfoldable pub participant_eq : ParticipantDiscoveryItem → ParticipantDiscoveryItem → Bool
participant_eq a b =
    a.endpoint_guid == b.endpoint_guid
    && (set_eq writer_eq a.datawriters b.datawriters
        && set_eq reader_eq a.datareaders b.datareaders)

-- operator != of ParticipantDiscoveryItem.
unfoldable pub participant_ne : ParticipantDiscoveryItem → ParticipantDiscoveryItem → Bool
participant_ne a b =
    not (a.endpoint_guid == b.endpoint_guid)
    || (not (set_eq writer_eq a.datawriters b.datawriters)
        || not (set_eq reader_eq a.datareaders b.datareaders))

pub participant_ne-not :
    (a b : ParticipantDiscoveryItem) → participant_ne a b ≡ not (participant_eq a b)
unfolding participant_ne participant_eq
participant_ne-not a b = ground arith

pub set_eq_refl {ℓ} :
    {A : Type ℓ} (eq : A → A → Bool)
    → ((a : A) → eq a a ≡ true)
    → (xs : List A) → set_eq eq xs xs ≡ true
unfolding set_eq
set_eq_refl eq r [] = refl
set_eq_refl eq r (x ∷ xs) = ground (arith, r x, set_eq_refl eq r xs)

pub set_eq_comm {ℓ} :
    {A : Type ℓ} (eq : A → A → Bool)
    → ((a b : A) → eq a b ≡ eq b a)
    → (xs ys : List A) → set_eq eq xs ys ≡ set_eq eq ys xs
unfolding set_eq
set_eq_comm eq c [] [] = refl
set_eq_comm eq c [] (y ∷ ys) = refl
set_eq_comm eq c (x ∷ xs) [] = refl
set_eq_comm eq c (x ∷ xs) (y ∷ ys) = ground (arith, c x y, set_eq_comm eq c xs ys)

writer_eq_refl : (a : DataWriterDiscoveryItem) → writer_eq a a ≡ true
unfolding writer_eq
writer_eq_refl a = ground (arith, eq_iff a.type_name a.type_name, eq_iff a.topic_name a.topic_name)

reader_eq_refl : (a : DataReaderDiscoveryItem) → reader_eq a a ≡ true
unfolding reader_eq
reader_eq_refl a = ground (arith, eq_iff a.type_name a.type_name, eq_iff a.topic_name a.topic_name)

writer_eq_comm : (a b : DataWriterDiscoveryItem) → writer_eq a b ≡ writer_eq b a
unfolding writer_eq
writer_eq_comm a b = ground (
  arith,
  eq_iff a.type_name b.type_name,
  eq_iff b.type_name a.type_name,
  eq_iff a.topic_name b.topic_name,
  eq_iff b.topic_name a.topic_name,
)

reader_eq_comm : (a b : DataReaderDiscoveryItem) → reader_eq a b ≡ reader_eq b a
unfolding reader_eq
reader_eq_comm a b = ground (
  arith,
  eq_iff a.type_name b.type_name,
  eq_iff b.type_name a.type_name,
  eq_iff a.topic_name b.topic_name,
  eq_iff b.topic_name a.topic_name,
)

pub participant_eq_refl : (a : ParticipantDiscoveryItem) → participant_eq a a ≡ true
unfolding participant_eq
participant_eq_refl a = ground (
  arith,
  set_eq_refl writer_eq writer_eq_refl a.datawriters,
  set_eq_refl reader_eq reader_eq_refl a.datareaders,
)

pub participant_eq_comm : (a b : ParticipantDiscoveryItem) → participant_eq a b ≡ participant_eq b a
unfolding participant_eq
participant_eq_comm a b = ground (
  arith,
  set_eq_comm writer_eq writer_eq_comm a.datawriters b.datawriters,
  set_eq_comm reader_eq reader_eq_comm a.datareaders b.datareaders,
)

pub participant_eq_ne :
    (a b : ParticipantDiscoveryItem)
    → (a.endpoint_guid == b.endpoint_guid) ≡ false
    → participant_eq a b ≡ false
unfolding participant_eq
participant_eq_ne a b e = ground arith
