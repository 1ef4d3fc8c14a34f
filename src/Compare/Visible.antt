-- ===== src/Compare/Visible.antt =====
-- What the comparison of two databases looks at: the living participants but the two themselves.
use discovery_server.Prelude.{
  ℕ, suc, ◌≤◌, ◌<◌, ◌≡◌, refl, Bool, true, not, ◌&&◌, ◌||◌, [], ◌∷◌, arith, ◌==◌, if◌then◌else◌,
  ◌⊎◌, inl, inr, length, All, keep, Bool-cases,
}
use discovery_server.OrderedSet.Order.{Above}
use discovery_server.Item.{Guid, ParticipantDiscoveryItem, participant_guid}
use discovery_server.Compare.{Items, skip_zombies}

module _ (lg rg : Guid) where
  -- Alive, and neither of the two participants that are compared.
  abbrev pub is_visible : ParticipantDiscoveryItem → Bool
  is_visible p = p.is_alive && not (p.endpoint_guid == lg || p.endpoint_guid == rg)

  abbrev pub visible : Items → Items
  visible ps = keep is_visible ps

  -- The position that an iterator reaches: the end with nothing left to see, or a living
  -- participant before the rest.
  pub record Reached (b : ℕ) (Q : ParticipantDiscoveryItem → Type 0) (ps : Items)
      (p : ParticipantDiscoveryItem) (rest : Items) : Type 0 where
    pub at : skip_zombies ps ≡ p ∷ rest
    pub alive : p.is_alive ≡ true
    pub shorter : length rest < length ps
    pub seen : visible ps ≡ (
        if p.endpoint_guid == lg || p.endpoint_guid == rg then visible rest else p ∷ visible rest)
    pub above : b ≤ p.endpoint_guid
    pub ordered : Above participant_guid (suc p.endpoint_guid) rest
    pub here : Q p
    pub later : All Q rest

  pub skip_cases :
      (b : ℕ) (Q : ParticipantDiscoveryItem → Type 0) (ps : Items)
      → Above participant_guid b ps
      → All Q ps
      → ((skip_zombies ps ≡ []) × (visible ps ≡ []))
        ⊎ ((p : ParticipantDiscoveryItem) × (rest : Items) × Reached b Q ps p rest)
  unfolding skip_zombies
  skip_cases b Q [] s q = inl (refl, refl)
  skip_cases b Q (p ∷ ps) s q = elim (Bool-cases p.is_alive) [
    | inl alive ↦ inr (
      p,
      ps,
      record {
        at = ground arith;
        alive = alive;
        shorter = omega arith;
        seen = ground arith;
        above = s.0;
        ordered = s.1;
        here = q.0;
        later = q.1;
      },
    )
    | inr dead ↦ elim (skip_cases (suc p.endpoint_guid) Q ps s.1 q.1) [
      | inl e ↦ inl (ground (arith, e), ground (arith, e))
      | inr (x, rest, e) ↦ inr (
        x,
        rest,
        record {
          at = ground (arith, e.at);
          alive = e.alive;
          shorter = omega (arith, e.shorter);
          seen = ground (arith, e.seen);
          above = omega (arith, e.above, s.0);
          ordered = e.ordered;
          here = e.here;
          later = e.later;
        },
      )
    ]
  ]

pub visible_comm : (lg rg : Guid) (ps : Items) → visible lg rg ps ≡ visible rg lg ps
visible_comm lg rg [] = refl
visible_comm lg rg (p ∷ ps) = ground (arith, visible_comm lg rg ps)
