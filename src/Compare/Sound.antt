-- ===== src/Compare/Sound.antt =====
-- What an equal verdict of operator == means, on any two databases.
use discovery_server.Prelude.{
  ℕ, zero, suc, ◌+◌, ◌≡◌, sym, ◌∙◌, Bool, true, some, [], ◌∷◌, arith, ◌==◌, inl, inr, length, All,
  Bool-cases, ltb, is_empty,
}
use discovery_server.OrderedSet.Order.{Above, IsSorted}
use discovery_server.Item.{Guid, ParticipantDiscoveryItem, participant_guid}
use discovery_server.Item.Equality.{participant_eq, set_eq}
use discovery_server.Snapshot.{ParticipantDiscoveryDatabase}
use discovery_server.Compare.{
  Items, skip_zombies, at_end, sweep, compare_loop, compare_ordered, database_eq, real_size,
}
use discovery_server.Compare.Visible.{visible, Reached, skip_cases}
use discovery_server.Compare.Exact.{round_match, set_eq_nil, set_eq-nil, visible_of, visible_swap}

abbrev Any : ParticipantDiscoveryItem → Type 0
Any p = Unit {0}

All-Any : (ps : Items) → All Any ps
All-Any [] = tt
All-Any (p ∷ ps) = (tt, All-Any ps)

module _ (lg rg : Guid) (same_size : Bool) where
  at_end_sound :
      (b : Guid) (ps : Items)
      → Above participant_guid b ps
      → at_end lg rg same_size (skip_zombies ps) ≡ true
      → is_empty (visible lg rg ps) ≡ true
  unfolding at_end
  at_end_sound b ps s h = elim (skip_cases lg rg b Any ps s (All-Any ps)) [
    | inl (e, f) ↦ ground (arith, e, f)
    | inr (p, rest, e) ↦
        elim (skip_cases lg rg (suc p.endpoint_guid) Any rest e.ordered (All-Any rest)) [
          | inl (f, g) ↦ ground (arith, e.at, e.seen, f, g)
          | inr (z, more, f) ↦ ground (arith, e.at, e.seen, f.at, f.seen)
        ]
  ]

  abbrev Implies : ℕ → Items → Items → Type 0
  Implies n xs ys =
      compare_loop lg rg same_size n (skip_zombies xs) (skip_zombies ys) ≡ some true
      → set_eq participant_eq (visible lg rg xs) (visible lg rg ys) ≡ true

  step_sound :
      (n b c : ℕ) (xs ys xs' ys' : Items) (x y : ParticipantDiscoveryItem)
      → Reached lg rg b Any xs x xs'
      → Reached lg rg c Any ys y ys'
      → Implies n xs' ys'
      → Implies n xs ys'
      → Implies n xs' ys
      → Implies (suc n) xs ys
  unfolding compare_loop set_eq sweep
  step_sound n b c xs ys xs' ys' x y rx ry both right left h =
      elim (Bool-cases (x.endpoint_guid == y.endpoint_guid)) [
        | inl same ↦
            ground (arith, rx.at, ry.at, rx.seen, ry.seen, round_match lg rg same_size x y xs' ys')
        | inr differ ↦ ground (arith, rx.at, ry.at, rx.seen, ry.seen)
      ]

  no_fuel : (xs ys : Items) → Implies zero xs ys
  unfolding compare_loop
  no_fuel xs ys h = cc

  left_end :
      (n c : ℕ) (xs ys : Items)
      → skip_zombies xs ≡ []
      → visible lg rg xs ≡ []
      → Above participant_guid c ys
      → Implies (suc n) xs ys
  unfolding compare_loop
  left_end n c xs ys e f s h =
      ground (arith, e, f, at_end_sound c ys s, set_eq_nil (visible lg rg ys))

  right_end :
      (n b : ℕ) (xs ys : Items) (x : ParticipantDiscoveryItem) (xs' : Items)
      → skip_zombies ys ≡ []
      → visible lg rg ys ≡ []
      → skip_zombies xs ≡ x ∷ xs'
      → Above participant_guid b xs
      → Implies (suc n) xs ys
  unfolding compare_loop
  right_end n b xs ys x xs' e f at s h =
      ground (arith, e, f, at, at_end_sound b xs s, set_eq-nil (visible lg rg xs))

  loop_sound :
      (n b c : ℕ) (xs ys : Items)
      → Above participant_guid b xs
      → Above participant_guid c ys
      → Implies n xs ys
  loop_sound zero b c xs ys sx sy h = no_fuel xs ys h
  loop_sound (suc n) b c xs ys sx sy h = elim (skip_cases lg rg b Any xs sx (All-Any xs)) [
    | inl (e, f) ↦ left_end n c xs ys e f sy h
    | inr (x, xs', rx) ↦ elim (skip_cases lg rg c Any ys sy (All-Any ys)) [
      | inl (e, f) ↦ right_end n b xs ys x xs' e f rx.at sx h
      | inr (y, ys', ry) ↦
          step_sound n b c xs ys xs' ys' x y rx ry
            (loop_sound n (suc x.endpoint_guid) (suc y.endpoint_guid) xs' ys' rx.ordered ry.ordered)
            (loop_sound n b (suc y.endpoint_guid) xs ys' sx ry.ordered)
            (loop_sound n (suc x.endpoint_guid) c xs' ys rx.ordered sy) h
    ]
  ]

ordered_sound :
    (l r : ParticipantDiscoveryDatabase)
    → IsSorted participant_guid l.participants
    → IsSorted participant_guid r.participants
    → compare_ordered l r ≡ some true
    → set_eq participant_eq (visible_of l r l) (visible_of l r r) ≡ true
unfolding compare_ordered
ordered_sound l r sl sr h =
    loop_sound l.endpoint_guid r.endpoint_guid (real_size r == real_size l)
      (suc (length l.participants + length r.participants)) 0 0 l.participants r.participants sl sr
      h

-- An equal verdict on any two databases in order means that the living participants in them, the
-- two participants themselves left out, agree one by one in GUID and endpoints.
pub database_eq_sound :
    (a b : ParticipantDiscoveryDatabase)
    → IsSorted participant_guid a.participants
    → IsSorted participant_guid b.participants
    → database_eq a b ≡ some true
    → set_eq participant_eq (visible_of a b a) (visible_of a b b) ≡ true
unfolding database_eq
database_eq_sound a b sa sb h = elim (Bool-cases (ltb b.endpoint_guid a.endpoint_guid)) [
  | inl swapped ↦ sym (visible_swap a b) ∙ ordered_sound b a sb sa (ground arith)
  | inr kept ↦ ordered_sound a b sa sb (ground arith)
]
