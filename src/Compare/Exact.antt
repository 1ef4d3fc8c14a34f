-- ===== src/Compare/Exact.antt =====
-- What operator == of two databases decides, where neither participant has itself in its database.
use discovery_server.Prelude.{
  ℕ, zero, suc, ◌+◌, ◌<◌, ◌≡◌, ◌≢◌, refl, sym, ap, ap₂, ◌∙◌, Bool, true, false, ◌||◌, none, some,
  [], ◌∷◌, arith, ◌==◌, if◌then◌else◌, ◌⊎◌, inl, inr, length, All, Bool-cases, ltb, is_empty,
}
use discovery_server.OrderedSet.{find}
use discovery_server.OrderedSet.Order.{Above, IsSorted}
use discovery_server.OrderedSet.Lookup.{find_below}
use discovery_server.Item.{Guid, ParticipantDiscoveryItem, participant_guid}
use discovery_server.Item.Equality.{
  participant_eq, participant_eq_comm, set_eq_comm, participant_ne-not, participant_eq_ne, set_eq,
}
use discovery_server.Snapshot.{ParticipantDiscoveryDatabase}
use discovery_server.Compare.{
  Items, skip_zombies, at_end, sweep, compare_round, compare_loop, compare_ordered, database_eq,
  stop, go_on, real_size,
}
use discovery_server.Compare.Visible.{visible, visible_comm, Reached, skip_cases}

pub set_eq_nil : (ys : Items) → set_eq participant_eq [] ys ≡ is_empty ys
unfolding set_eq
set_eq_nil [] = refl
set_eq_nil (y ∷ ys) = refl

pub set_eq-nil : (xs : Items) → set_eq participant_eq xs [] ≡ is_empty xs
unfolding set_eq
set_eq-nil [] = refl
set_eq-nil (x ∷ xs) = refl

-- Of the two participants only `v` can be this one.
abbrev OwnIs : Guid → Guid → Guid → ParticipantDiscoveryItem → Type 0
OwnIs lg rg v p = (p.endpoint_guid == lg || p.endpoint_guid == rg) ≡ true → p.endpoint_guid ≡ v

module _ (lg rg : Guid) (same_size : Bool) where
  at_end_exact :
      (b v : Guid) (ps : Items)
      → Above participant_guid b ps
      → All (OwnIs lg rg v) ps
      → at_end lg rg same_size (skip_zombies ps) ≡ is_empty (visible lg rg ps)
  unfolding at_end
  at_end_exact b v ps s q = elim (skip_cases lg rg b (OwnIs lg rg v) ps s q) [
    | inl (e, f) ↦ ground (arith, e, f)
    | inr (p, rest, e) ↦
        elim (skip_cases lg rg (suc p.endpoint_guid) (OwnIs lg rg v) rest e.ordered e.later) [
          | inl (f, g) ↦ ground (arith, e.at, e.seen, f, g)
          | inr (z, more, f) ↦ ground (arith, e.at, e.seen, e.here, f.at, f.seen, f.here, f.above)
        ]
  ]

  -- One round at two living participants.
  pub round_match :
      (x y : ParticipantDiscoveryItem) (xs ys : Items)
      → x.endpoint_guid ≡ y.endpoint_guid
      → compare_round lg rg same_size (x ∷ xs) (y ∷ ys)
        ≡ (if participant_eq x y then go_on (skip_zombies xs) (skip_zombies ys) else stop false)
  unfolding compare_round
  round_match x y xs ys e = ground (arith, participant_ne-not x y)

  abbrev Agrees : ℕ → Items → Items → Type 0
  Agrees n xs ys =
      compare_loop lg rg same_size n (skip_zombies xs) (skip_zombies ys)
      ≡ some (set_eq participant_eq (visible lg rg xs) (visible lg rg ys))

  -- A round at two living participants, given what the next rounds decide.
  step_exact :
      (n b c : ℕ) (xs ys xs' ys' : Items) (x y : ParticipantDiscoveryItem)
      → lg ≢ rg
      → Reached lg rg b (OwnIs lg rg rg) xs x xs'
      → Reached lg rg c (OwnIs lg rg lg) ys y ys'
      → Agrees n xs' ys'
      → Agrees n xs ys'
      → Agrees n xs' ys
      → Agrees (suc n) xs ys
  unfolding compare_loop set_eq sweep
  step_exact n b c xs ys xs' ys' x y different rx ry both right left =
      elim (Bool-cases (x.endpoint_guid == y.endpoint_guid)) [
        | inl same ↦
            ground
              (arith, rx.at, ry.at, rx.seen, ry.seen, rx.here, ry.here, round_match x y xs' ys')
        | inr differ ↦
            ground (
              arith,
              rx.at,
              ry.at,
              rx.seen,
              ry.seen,
              rx.here,
              ry.here,
              participant_eq_ne x y differ,
            )
      ]

  left_end :
      (n c : ℕ) (xs ys : Items)
      → skip_zombies xs ≡ []
      → visible lg rg xs ≡ []
      → Above participant_guid c ys
      → All (OwnIs lg rg lg) ys
      → Agrees (suc n) xs ys
  unfolding compare_loop
  left_end n c xs ys e f s q =
      ground (arith, e, f, at_end_exact c lg ys s q, set_eq_nil (visible lg rg ys))

  right_end :
      (n b : ℕ) (xs ys : Items) (x : ParticipantDiscoveryItem) (xs' : Items)
      → skip_zombies ys ≡ []
      → visible lg rg ys ≡ []
      → Reached lg rg b (OwnIs lg rg rg) xs x xs'
      → Above participant_guid b xs
      → All (OwnIs lg rg rg) xs
      → Agrees (suc n) xs ys
  unfolding compare_loop
  right_end n b xs ys x xs' e f rx s q =
      ground (arith, e, f, rx.at, at_end_exact b rg xs s q, set_eq-nil (visible lg rg xs))

  loop_exact :
      lg ≢ rg
      → (n b c : ℕ) (xs ys : Items) → length xs + length ys < n
      → Above participant_guid b xs
      → Above participant_guid c ys
      → All (OwnIs lg rg rg) xs
      → All (OwnIs lg rg lg) ys
      → Agrees n xs ys
  loop_exact different zero b c xs ys m sx sy qx qy = absurd (omega arith)
  loop_exact different (suc n) b c xs ys m sx sy qx qy =
      elim (skip_cases lg rg b (OwnIs lg rg rg) xs sx qx) [
        | inl (e, f) ↦ left_end n c xs ys e f sy qy
        | inr (x, xs', rx) ↦ elim (skip_cases lg rg c (OwnIs lg rg lg) ys sy qy) [
          | inl (e, f) ↦ right_end n b xs ys x xs' e f rx sx qx
          | inr (y, ys', ry) ↦
              step_exact n b c xs ys xs' ys' x y different rx ry
                (loop_exact different n (suc x.endpoint_guid) (suc y.endpoint_guid) xs' ys'
                  (omega (arith, rx.shorter, ry.shorter)) rx.ordered ry.ordered rx.later ry.later)
                (loop_exact different n b (suc y.endpoint_guid) xs ys' (omega (arith, ry.shorter))
                  sx ry.ordered qx ry.later)
                (loop_exact different n (suc x.endpoint_guid) c xs' ys (omega (arith, rx.shorter))
                  rx.ordered sy rx.later qy)
        ]
      ]

-- A participant that is not found is none of the elements.
absent-All :
    (k v lg rg b : Guid) (ps : Items)
    → (k ≡ lg) × (v ≡ rg) ⊎ (k ≡ rg) × (v ≡ lg)
    → Above participant_guid b ps
    → find participant_guid k ps ≡ none
    → All (OwnIs lg rg v) ps
unfolding find
absent-All k v lg rg b [] h s e = tt
absent-All k v lg rg b (p ∷ ps) h s e = (
  ground arith,
  absent-All k v lg rg (suc p.endpoint_guid) ps h s.1
      (ground (arith, find_below participant_guid k (suc p.endpoint_guid) ps)),
)

abbrev pub visible_of :
    ParticipantDiscoveryDatabase
    → ParticipantDiscoveryDatabase
    → ParticipantDiscoveryDatabase
    → Items
visible_of a b db = visible a.endpoint_guid b.endpoint_guid db.participants

ordered_exact :
    (l r : ParticipantDiscoveryDatabase)
    → l.endpoint_guid ≢ r.endpoint_guid
    → IsSorted participant_guid l.participants
    → IsSorted participant_guid r.participants
    → find participant_guid l.endpoint_guid l.participants ≡ none
    → find participant_guid r.endpoint_guid r.participants ≡ none
    → compare_ordered l r ≡ some (set_eq participant_eq (visible_of l r l) (visible_of l r r))
unfolding compare_ordered
ordered_exact l r different sl sr nl nr =
    loop_exact lg rg (real_size r == real_size l) different
      (suc (length l.participants + length r.participants)) 0 0 l.participants r.participants
      (omega arith) sl sr (absent-All lg rg lg rg 0 l.participants (inl (refl, refl)) sl nl)
      (absent-All rg lg lg rg 0 r.participants (inr (refl, refl)) sr nr)
  where
    lg : Guid
    lg = l.endpoint_guid

    rg : Guid
    rg = r.endpoint_guid

-- The two directions of the comparison look at the same participants.
pub visible_swap :
    (a b : ParticipantDiscoveryDatabase)
    → set_eq participant_eq (visible_of b a b) (visible_of b a a)
      ≡ set_eq participant_eq (visible_of a b a) (visible_of a b b)
visible_swap a b =
    set_eq_comm participant_eq participant_eq_comm _ _
    ∙ ap₂ (set_eq participant_eq) (visible_comm b.endpoint_guid a.endpoint_guid a.participants)
        (visible_comm b.endpoint_guid a.endpoint_guid b.participants)

-- Two databases in GUID order, of different participants, neither of which has its own participant in its
-- database, compare equal exactly if the living participants in them, the two themselves left
-- out, agree one by one in GUID and endpoints; and the comparison always returns.
pub database_eq_exact :
    (a b : ParticipantDiscoveryDatabase)
    → a.endpoint_guid ≢ b.endpoint_guid
    → IsSorted participant_guid a.participants
    → IsSorted participant_guid b.participants
    → find participant_guid a.endpoint_guid a.participants ≡ none
    → find participant_guid b.endpoint_guid b.participants ≡ none
    → database_eq a b ≡ some (set_eq participant_eq (visible_of a b a) (visible_of a b b))
unfolding database_eq
database_eq_exact a b different sa sb na nb =
    elim (Bool-cases (ltb b.endpoint_guid a.endpoint_guid)) [
      | inl swapped ↦
          rw swapped
            (ordered_exact b a (λ e. different (sym e)) sb sa nb na ∙ ap some (visible_swap a b))
      | inr kept ↦ rw kept (ordered_exact a b different sa sb na nb)
    ]
