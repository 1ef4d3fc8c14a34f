-- ===== src/Compare/Mapped.antt =====
-- Changes of the items that operator == of databases, src/DiscoveryItem.cpp, does not notice.
use discovery_server.Prelude.{
  ℕ, zero, suc, ◌+◌, ◌≡◌, refl, ap, Bool, [], ◌∷◌, map, arith, String, ◌==◌, ltb, Bool-cases, inl,
  inr, is_empty, length,
}
use discovery_server.Item.{Guid, ParticipantDiscoveryItem}
use discovery_server.Item.Equality.{participant_ne}
use discovery_server.Snapshot.{ParticipantDiscoveryDatabase}
use discovery_server.Compare.Relation.{Round-cases}
use discovery_server.Compare.{
  Items, Round, stop, go_on, skip_zombies, sbegin, advance, steps_to_end, real_size, at_end, sweep,
  compare_round, compare_loop, compare_ordered, database_eq,
}

-- A change of the items of each database, for the participant that it belongs to.
pub record IsHarmless (f : Guid → ParticipantDiscoveryItem → ParticipantDiscoveryItem)
    : Type 0 where
  pub same_guid :
      (o : Guid) (p : ParticipantDiscoveryItem) → (f o p).endpoint_guid ≡ p.endpoint_guid
  pub same_life : (o : Guid) (p : ParticipantDiscoveryItem) → (f o p).is_alive ≡ p.is_alive
  pub same_ne :
      (o o' : Guid) (p q : ParticipantDiscoveryItem)
      → participant_ne (f o p) (f o' q) ≡ participant_ne p q

abbrev pub changed :
    (Guid → ParticipantDiscoveryItem → ParticipantDiscoveryItem)
    → String
    → ParticipantDiscoveryDatabase
    → ParticipantDiscoveryDatabase
changed f n db = record db {
  participant_name = n;
  participants = map (f db.endpoint_guid) db.participants;
}

module _ (f : Guid → ParticipantDiscoveryItem → ParticipantDiscoveryItem) (h : IsHarmless f) where
  skip_zombies-map :
      (o : Guid) (ps : Items) → skip_zombies (map (f o) ps) ≡ map (f o) (skip_zombies ps)
  unfolding skip_zombies
  skip_zombies-map o [] = refl
  skip_zombies-map o (p ∷ ps) = ground (arith, h.same_life o p, skip_zombies-map o ps)

  advance-map : (o : Guid) (ps : Items) → advance (map (f o) ps) ≡ map (f o) (advance ps)
  unfolding advance
  advance-map o [] = refl
  advance-map o (p ∷ ps) = skip_zombies-map o ps

  steps_to_end-map : (o : Guid) (ps : Items) → steps_to_end (map (f o) ps) ≡ steps_to_end ps
  unfolding steps_to_end
  steps_to_end-map o [] = refl
  steps_to_end-map o (p ∷ ps) = rw (h.same_life o p, steps_to_end-map o ps) refl

  real_size-changed :
      (n : String) (db : ParticipantDiscoveryDatabase) → real_size (changed f n db) ≡ real_size db
  unfolding real_size
  real_size-changed n db =
      rw (skip_zombies-map db.endpoint_guid db.participants)
        (steps_to_end-map db.endpoint_guid (skip_zombies db.participants))

  length-map : (o : Guid) (ps : Items) → length (map (f o) ps) ≡ length ps
  length-map o [] = refl
  length-map o (p ∷ ps) = ap suc (length-map o ps)

  is_empty-map : (o : Guid) (ps : Items) → is_empty (map (f o) ps) ≡ is_empty ps
  is_empty-map o [] = refl
  is_empty-map o (p ∷ ps) = refl

  abbrev changed_round : Guid → Guid → Round → Round
  changed_round o o' (stop b) = stop b
  changed_round o o' (go_on l r) = go_on (map (f o) l) (map (f o') r)

  module _ (lg rg : Guid) (same_size : Bool) where
    at_end-map :
        (o : Guid) (ps : Items) → at_end lg rg same_size (map (f o) ps) ≡ at_end lg rg same_size ps
    unfolding at_end
    at_end-map o [] = refl
    at_end-map o (p ∷ ps) =
        rw (h.same_guid o p, skip_zombies-map o ps, is_empty-map o (skip_zombies ps)) refl

    sweep-map :
        (o o' : Guid) (p q : ParticipantDiscoveryItem) (ps qs : Items)
        → sweep lg rg same_size (f o p) (map (f o) ps) (f o' q) (map (f o') qs)
          ≡ changed_round o o' (sweep lg rg same_size p ps q qs)
    unfolding sweep
    sweep-map o o' p q ps qs =
        ground
          (arith, h.same_guid o p, h.same_guid o' q, skip_zombies-map o ps, skip_zombies-map o' qs)

    compare_round-map :
        (o o' : Guid) (l r : Items)
        → compare_round lg rg same_size (map (f o) l) (map (f o') r)
          ≡ changed_round o o' (compare_round lg rg same_size l r)
    unfolding compare_round
    compare_round-map o o' [] r = ap stop (at_end-map o' r)
    compare_round-map o o' (p ∷ ps) [] = ap stop (at_end-map o (p ∷ ps))
    compare_round-map o o' (p ∷ ps) (q ∷ qs) = ground (
      arith,
      h.same_guid o p,
      h.same_guid o' q,
      h.same_ne o o' p q,
      skip_zombies-map o ps,
      skip_zombies-map o' qs,
      sweep-map o o' p q ps qs,
    )

    compare_loop-map :
        (o o' : Guid) (n : ℕ) (l r : Items)
        → compare_loop lg rg same_size n (map (f o) l) (map (f o') r)
          ≡ compare_loop lg rg same_size n l r
    unfolding compare_loop
    compare_loop-map o o' zero l r = refl
    compare_loop-map o o' (suc n) l r = elim (Round-cases (compare_round lg rg same_size l r)) [
      | inl (b, e) ↦ rw (compare_round-map o o' l r, e, compare_loop) refl
      | inr (l', r', e) ↦
          rw (compare_round-map o o' l r, e, compare_loop) (compare_loop-map o o' n l' r')
    ]

  module _ (n : String) where
    sbegin-changed :
        (db : ParticipantDiscoveryDatabase)
        → sbegin (changed f n db) ≡ map (f db.endpoint_guid) (sbegin db)
    unfolding sbegin
    sbegin-changed db = skip_zombies-map db.endpoint_guid db.participants

    compare_ordered-changed :
        (a b : ParticipantDiscoveryDatabase)
        → compare_ordered (changed f n a) (changed f n b) ≡ compare_ordered a b
    unfolding compare_ordered
    compare_ordered-changed a b =
        rw
          (
            real_size-changed n a,
            real_size-changed n b,
            sbegin-changed a,
            sbegin-changed b,
            length-map a.endpoint_guid a.participants,
            length-map b.endpoint_guid b.participants,
          )
          (compare_loop-map a.endpoint_guid b.endpoint_guid (real_size b == real_size a)
            a.endpoint_guid b.endpoint_guid (suc (length a.participants + length b.participants))
            (sbegin a) (sbegin b))

    pub database_eq-changed :
        (a b : ParticipantDiscoveryDatabase)
        → database_eq (changed f n a) (changed f n b) ≡ database_eq a b
    unfolding database_eq
    database_eq-changed a b = elim (Bool-cases (ltb b.endpoint_guid a.endpoint_guid)) [
      | inl e ↦ rw e (compare_ordered-changed b a)
      | inr e ↦ rw e (compare_ordered-changed a b)
    ]
