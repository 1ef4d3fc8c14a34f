-- ===== src/OrderedSet/Order.antt =====
-- The order of a set is kept by each of its operations.
use discovery_server.Prelude.{ℕ, suc, ◌≤◌, ◌≡◌, List, [], ◌∷◌, arith}
use discovery_server.OrderedSet.{emplace, erase, modify}

module _ {A : Type 0} (key : A → ℕ) where
  -- The keys grow strictly along the list, from `b` on.
  abbrev pub Above : ℕ → List A → Type 0
  Above b [] = Unit {0}
  Above b (x ∷ xs) = (b ≤ key x) × Above (suc (key x)) xs

  abbrev pub IsSorted : List A → Type 0
  IsSorted xs = Above 0 xs

  pub Above-mono : (b c : ℕ) (xs : List A) → b ≤ c → Above c xs → Above b xs
  Above-mono b c [] h s = tt
  Above-mono b c (x ∷ xs) h s = (omega arith, s.1)

  pub emplace-Above :
      (b : ℕ) (a : A) (xs : List A) → b ≤ key a → Above b xs → Above b (emplace key a xs)
  unfolding emplace
  emplace-Above b a [] h s = (h, tt)
  emplace-Above b a (x ∷ xs) h s = ground (arith, emplace-Above (suc (key x)) a xs)

  pub erase-Above : (b k : ℕ) (xs : List A) → Above b xs → Above b (erase key k xs)
  unfolding erase
  erase-Above b k [] s = tt
  erase-Above b k (x ∷ xs) s =
      ground (arith, erase-Above (suc (key x)) k xs, Above-mono b (suc (key x)) xs)

  pub modify-Above :
      (b k : ℕ) (f : A → A) (xs : List A)
      → ((x : A) → key (f x) ≡ key x)
      → Above b xs
      → Above b (modify key k f xs)
  unfolding modify
  modify-Above b k f [] same s = tt
  modify-Above b k f (x ∷ xs) same s =
      ground (arith, same x, modify-Above (suc (key x)) k f xs same)
