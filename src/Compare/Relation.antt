-- ===== src/Compare/Relation.antt =====
-- operator == of two databases returns on all of them, and is reflexive and symmetric.
use discovery_server.Prelude.{
  ℕ, zero, suc, ◌+◌, ◌≤◌, ◌<◌, ◌≡◌, ◌≢◌, refl, Bool, true, some, [], ◌∷◌, arith, ◌==◌, ◌⊎◌, inl,
  inr, length, Bool-cases, ltb,
}
use discovery_server.Item.{Guid}
use discovery_server.Item.Equality.{participant_eq_refl, participant_ne-not}
use discovery_server.Snapshot.{ParticipantDiscoveryDatabase}
use discovery_server.Compare.{
  Items, Round, skip_zombies, sbegin, compare_round, compare_loop, compare_ordered, database_eq,
  stop, go_on, real_size,
}

pub length-skip_zombies : (ps : Items) → length (skip_zombies ps) ≤ length ps
unfolding skip_zombies
length-skip_zombies [] = omega arith
length-skip_zombies (p ∷ ps) = ground (arith, length-skip_zombies ps)

pub Round-cases :
    (o : Round) → ((b : Bool) × (o ≡ stop b)) ⊎ ((l : Items) × (r : Items) × (o ≡ go_on l r))
Round-cases (stop b) = inl (b, refl)
Round-cases (go_on l r) = inr (l, r, refl)

module _ (lg rg : Guid) (same_size : Bool) where
  -- Each round that goes on advances an iterator.
  round_shrinks :
      (lit rit lit' rit' : Items)
      → compare_round lg rg same_size lit rit ≡ go_on lit' rit'
      → length lit' + length rit' < length lit + length rit
  unfolding compare_round
  round_shrinks [] rit lit' rit' e = cc
  round_shrinks (x ∷ xs) [] lit' rit' e = cc
  round_shrinks (x ∷ xs) (y ∷ ys) lit' rit' e =
      ground (arith, length-skip_zombies xs, length-skip_zombies ys)

  loop_terminates :
      (n : ℕ) (lit rit : Items)
      → length lit + length rit < n
      → (b : Bool) × (compare_loop lg rg same_size n lit rit ≡ some b)
  unfolding compare_loop
  loop_terminates zero lit rit m = absurd (omega arith)
  loop_terminates (suc n) lit rit m = elim (Round-cases (compare_round lg rg same_size lit rit)) [
    | inl (b, e) ↦ (b, rw (e, compare_loop) refl)
    | inr (l, r, e) ↦
        rw (e, compare_loop) (loop_terminates n l r (omega (arith, round_shrinks lit rit l r e)))
  ]

  loop_refl :
      (n : ℕ) (ps : Items)
      → length ps < n
      → compare_loop lg rg same_size n (skip_zombies ps) (skip_zombies ps) ≡ some true
  unfolding compare_loop skip_zombies
  loop_refl zero ps m = absurd (omega arith)
  loop_refl (suc n) [] m = refl
  loop_refl (suc n) (p ∷ ps) m = ground (
    arith,
    participant_ne-not p p,
    participant_eq_refl p,
    loop_refl n ps (omega arith),
    loop_refl (suc n) ps (omega arith),
  )

ordered_terminates :
    (l r : ParticipantDiscoveryDatabase) → (b : Bool) × (compare_ordered l r ≡ some b)
unfolding compare_ordered
ordered_terminates l r =
    loop_terminates l.endpoint_guid r.endpoint_guid (real_size r == real_size l)
      (suc (length l.participants + length r.participants)) (sbegin l) (sbegin r)
      (omega (arith, length-skip_zombies l.participants, length-skip_zombies r.participants))

-- The loop of operator == ends on any two databases: the fuel, one more than the number of their
-- participants, is never used up.
pub database_eq_terminates :
    (a b : ParticipantDiscoveryDatabase) → (r : Bool) × (database_eq a b ≡ some r)
unfolding database_eq
database_eq_terminates a b = elim (Bool-cases (ltb b.endpoint_guid a.endpoint_guid)) [
  | inl e ↦ rw e (ordered_terminates b a)
  | inr e ↦ rw e (ordered_terminates a b)
]

-- Every database compares equal to itself.
pub database_eq_refl : (a : ParticipantDiscoveryDatabase) → database_eq a a ≡ some true
unfolding database_eq compare_ordered
database_eq_refl a = ground (
  arith,
  loop_refl a.endpoint_guid a.endpoint_guid (real_size a == real_size a)
      (suc (length a.participants + length a.participants)) a.participants (omega arith),
)

-- The order of the operands does not matter, for databases of different participants.
pub database_eq_comm :
    (a b : ParticipantDiscoveryDatabase)
    → a.endpoint_guid ≢ b.endpoint_guid
    → database_eq a b ≡ database_eq b a
unfolding database_eq
database_eq_comm a b different = ground arith
