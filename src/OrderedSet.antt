-- ===== src/OrderedSet.antt =====
-- std::set and std::map with the members that DiscoveryItem.cpp and DiscoveryServerManager.cpp
-- call: a list in the order of a key. Keys are unique, so an iterator is the key of the element
-- that it points to, and `none` is end().
pub mod Order
pub mod Lookup
use discovery_server.Prelude.{
  ℕ, ◌≡◌, Bool, true, false, Option, none, some, List, [], ◌∷◌, ltb, ◌==◌, if◌then◌else◌,
}

module _ {A : Type 0} (key : A → ℕ) where
  -- std::lower_bound: the first element whose key is not below `k`.
  unfoldable pub lower_bound : ℕ → List A → Option A
  lower_bound k [] = none
  lower_bound k (x ∷ xs) = if ltb (key x) k then lower_bound k xs else some x

  -- find: the element whose key is neither below nor above `k`.
  unfoldable pub find : ℕ → List A → Option A
  find k [] = none
  find k (x ∷ xs) = if ltb (key x) k then find k xs else if key x == k then some x else none

  -- emplace, emplace_hint and insert: nothing is inserted where the key is taken already.
  unfoldable pub emplace : A → List A → List A
  emplace a [] = a ∷ []
  emplace a (x ∷ xs) =
      if ltb (key x) (key a)
      then x ∷ emplace a xs
      else if key x == key a
      then x ∷ xs
      else a ∷ x ∷ xs

  -- erase, by key or at an iterator.
  unfoldable pub erase : ℕ → List A → List A
  erase k [] = []
  erase k (x ∷ xs) = if key x == k then xs else x ∷ erase k xs

  -- A write through an iterator or a reference to an element.
  unfoldable pub modify : ℕ → (A → A) → List A → List A
  modify k f [] = []
  modify k f (x ∷ xs) = if key x == k then f x ∷ xs else x ∷ modify k f xs

  -- The guard `it == end() || *it != k` behind a lower_bound: `none` where it holds.
  unfoldable pub at_key : ℕ → Option A → Option A
  at_key k none = none
  at_key k (some x) = if key x == k then some x else none

  -- lower_bound and its guard.
  unfoldable pub seek : ℕ → List A → Option A
  unfolding at_key lower_bound
  seek k xs = at_key k (lower_bound k xs)
