-- ===== src/Compare.antt =====
-- The comparison of two databases, src/DiscoveryItem.cpp: operator == over the iterators that
-- ignore zombies. A smart_iterator is the rest of the set from wrap_it_ on; `[]` is end().
pub mod Visible
pub mod Mapped
pub mod Exact
pub mod Sound
pub mod Relation
use discovery_server.Prelude.{
  ℕ, zero, suc, ◌+◌, Bool, true, false, not, ◌&&◌, ◌||◌, Option, none, some, List, [], ◌∷◌, ◌==◌,
  ltb, if◌then◌else◌, is_empty, length,
}
use discovery_server.Item.{Guid, ParticipantDiscoveryItem}
use discovery_server.Item.Equality.{participant_ne}
use discovery_server.Snapshot.{ParticipantDiscoveryDatabase}

abbrev pub Items : Type 0
Items = List ParticipantDiscoveryItem

-- The loop of the constructor and of operator ++ over zombies.
unfoldable pub skip_zombies : Items → Items
skip_zombies [] = []
skip_zombies (p ∷ ps) = if not p.is_alive then skip_zombies ps else p ∷ ps

unfoldable pub sbegin : ParticipantDiscoveryDatabase → Items
unfolding skip_zombies
sbegin db = skip_zombies db.participants

-- operator ++: one step, and then over the zombies.
unfoldable pub advance : Items → Items
unfolding skip_zombies
advance [] = []
advance (p ∷ ps) = skip_zombies ps

-- std::distance: how often an iterator is advanced up to the end.
unfoldable pub steps_to_end : Items → ℕ
steps_to_end [] = 0
steps_to_end (p ∷ ps) = if p.is_alive then suc (steps_to_end ps) else steps_to_end ps

unfoldable pub real_size : ParticipantDiscoveryDatabase → ℕ
unfolding sbegin steps_to_end
real_size db = steps_to_end (sbegin db)

-- What one round of the loop does: it returns, or goes on with the two iterators.
pub data Round : Type 0 where
  stop : Bool → Round
  go_on : Items → Items → Round

-- The loop, for the database `l` of the smaller GUID and `r` of the other.
module _ (lg rg : Guid) (same_size : Bool) where
  unfoldable pub is_own : ParticipantDiscoveryItem → Bool
  is_own p = p.endpoint_guid == lg || p.endpoint_guid == rg

  -- One list has reached its end: the other has too, or holds only one of the two participants.
  unfoldable pub at_end : Items → Bool
  unfolding is_own advance
  at_end [] = true
  at_end (p ∷ ps) = is_own p && is_empty (advance (p ∷ ps))

  -- The elements differ in their GUID: is our own discovery data interfering?
  unfoldable pub sweep : ParticipantDiscoveryItem → Items → ParticipantDiscoveryItem → Items → Round
  unfolding advance
  sweep x xs y ys =
      let go = y.endpoint_guid == lg in
      let go' = x.endpoint_guid == rg && (same_size || not go) in
      if go || go'
      then go_on (if go' then advance (x ∷ xs) else x ∷ xs)
          (if go then advance (y ∷ ys) else y ∷ ys)
      else stop false

  unfoldable pub compare_round : Items → Items → Round
  unfolding at_end sweep advance
  compare_round [] rit = stop (at_end rit)
  compare_round (x ∷ xs) [] = stop (at_end (x ∷ xs))
  compare_round (x ∷ xs) (y ∷ ys) =
      if x.endpoint_guid == y.endpoint_guid
      then if participant_ne x y then stop false else go_on (advance (x ∷ xs)) (advance (y ∷ ys))
      else sweep x xs y ys

  -- `while (go)` with fuel; `none` is that the fuel ran out.
  unfoldable pub compare_loop : ℕ → Items → Items → Option Bool
  unfolding compare_round
  compare_loop zero lit rit = none
  compare_loop (suc n) lit rit = elim (compare_round lit rit) [
    | stop b ↦ some b
    | go_on lit' rit' ↦ compare_loop n lit' rit'
  ]

unfoldable pub compare_ordered :
    ParticipantDiscoveryDatabase → ParticipantDiscoveryDatabase → Option Bool
unfolding compare_loop sbegin real_size
compare_ordered l r =
    compare_loop l.endpoint_guid r.endpoint_guid (real_size r == real_size l)
      (suc (length l.participants + length r.participants)) (sbegin l) (sbegin r)

-- operator == of two databases.
unfoldable pub database_eq :
    ParticipantDiscoveryDatabase → ParticipantDiscoveryDatabase → Option Bool
unfolding compare_ordered
database_eq cl cr =
    if ltb cr.endpoint_guid cl.endpoint_guid then compare_ordered cr cl else compare_ordered cl cr
