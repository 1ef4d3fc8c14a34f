-- ===== src/OrderedSet/Lookup.antt =====
-- What a lookup finds after each operation, and how the size changes.
use discovery_server.Prelude.{
  ℕ, suc, ◌+◌, ◌<◌, ◌≡◌, refl, ◌⊎◌, inl, inr, subst, Bool-cases, true, false, List, [], ◌∷◌, arith,
  none, some, ◌==◌, if◌then◌else◌, from_option, is_none, total, map_option, length, All,
}
use discovery_server.OrderedSet.{lower_bound, find, emplace, erase, modify, seek}
use discovery_server.OrderedSet.Order.{Above}

module _ {A : Type 0} (key : A → ℕ) where
  pub find_below : (k b : ℕ) (xs : List A) → k < b → Above key b xs → find key k xs ≡ none
  unfolding find
  find_below k b [] h s = refl
  find_below k b (x ∷ xs) h s = ground arith

  pub find-key : (k : ℕ) (xs : List A) {x : A} → find key k xs ≡ some x → key x ≡ k
  unfolding find
  find-key k [] e = cc
  find-key k (y ∷ xs) {x} e = ground (arith, find-key k xs {x = x})

  find-nil : (k : ℕ) {x : A} → find key k [] ≡ some x → ⊥
  unfolding find
  find-nil k e = cc

  find-cons_cases :
      (k : ℕ) (y : A) (xs : List A) {x : A}
      → find key k (y ∷ xs) ≡ some x
      → (find key k xs ≡ some x) ⊎ (y ≡ x)
  unfolding find
  find-cons_cases k y xs e = ground arith

  find-cons_here :
      (k : ℕ) (y : A) (xs : List A) {x : A}
      → (key y == k) ≡ true
      → find key k (y ∷ xs) ≡ some x
      → x ≡ y
  unfolding find
  find-cons_here k y xs h e = ground arith

  find-cons_later :
      (k : ℕ) (y : A) (xs : List A) {x : A}
      → (key y == k) ≡ false
      → find key k (y ∷ xs) ≡ some x
      → find key k xs ≡ some x
  unfolding find
  find-cons_later k y xs h e = ground arith

  -- A lower_bound with its guard is a find.
  pub seek-find : (k : ℕ) (xs : List A) → seek key k xs ≡ find key k xs
  unfolding find seek
  seek-find k [] = refl
  seek-find k (x ∷ xs) = ground (arith, seek-find k xs)

  -- Where the key is there, lower_bound points at it.
  pub lower_bound-find :
      (k : ℕ) (xs : List A) {x : A} → find key k xs ≡ some x → lower_bound key k xs ≡ some x
  unfolding find lower_bound
  lower_bound-find k [] e = cc
  lower_bound-find k (y ∷ xs) {x} e = ground (arith, lower_bound-find k xs {x = x})

  -- Where it is not, lower_bound points behind it.
  pub lower_bound_absent :
      (k : ℕ) (xs : List A) {x : A}
      → find key k xs ≡ none
      → lower_bound key k xs ≡ some x
      → (k < key x) × (find key (key x) xs ≡ some x)
  unfolding find lower_bound
  lower_bound_absent k [] e l = cc
  lower_bound_absent k (y ∷ xs) {x} e l = ground (arith, lower_bound_absent k xs {x = x})

  pub modify-modify :
      (k : ℕ) (f g : A → A) (xs : List A)
      → ((x : A) → key (g x) ≡ key x)
      → modify key k f (modify key k g xs) ≡ modify key k (λ x. f (g x)) xs
  unfolding modify
  modify-modify k f g [] same = refl
  modify-modify k f g (x ∷ xs) same = ground (arith, same x, modify-modify k f g xs same)

  pub erase-modify :
      (k : ℕ) (f : A → A) (xs : List A)
      → ((x : A) → key (f x) ≡ key x)
      → erase key k (modify key k f xs) ≡ erase key k xs
  unfolding modify erase
  erase-modify k f [] same = refl
  erase-modify k f (x ∷ xs) same = ground (arith, same x, erase-modify k f xs same)

  -- An element that was inserted and is erased again leaves no trace.
  pub erase-emplace :
      (b : ℕ) (a : A) (xs : List A)
      → Above key b xs
      → find key (key a) xs ≡ none
      → erase key (key a) (emplace key a xs) ≡ xs
  unfolding erase emplace find
  erase-emplace b a [] s e = ground arith
  erase-emplace b a (x ∷ xs) s e = ground (arith, erase-emplace (suc (key x)) a xs s.1)

  pub find-emplace :
      (k b : ℕ) (a : A) (xs : List A)
      → Above key b xs
      → find key k (emplace key a xs)
        ≡ (if key a == k then some (from_option (find key k xs) a) else find key k xs)
  unfolding find emplace
  find-emplace k b a [] s = ground arith
  find-emplace k b a (x ∷ xs) s =
      ground (arith, find-emplace k (suc (key x)) a xs s.1, find_below k (suc (key x)) xs)

  pub find-erase :
      (k j b : ℕ) (xs : List A)
      → Above key b xs
      → find key k (erase key j xs) ≡ (if j == k then none else find key k xs)
  unfolding find erase
  find-erase k j b [] s = ground arith
  find-erase k j b (x ∷ xs) s =
      ground (arith, find-erase k j (suc (key x)) xs s.1, find_below k (suc (key x)) xs)

  pub find-modify :
      (k j b : ℕ) (f : A → A) (xs : List A)
      → ((x : A) → key (f x) ≡ key x)
      → Above key b xs
      → find key k (modify key j f xs)
        ≡ (if j == k then map_option f (find key k xs) else find key k xs)
  unfolding find modify
  find-modify k j b f [] same s = ground arith
  find-modify k j b f (x ∷ xs) same s =
      ground
        (arith, same x, find-modify k j (suc (key x)) f xs same s.1, find_below k (suc (key x)) xs)

  -- An insertion of a key that is taken changes nothing.
  pub emplace_present :
      (b : ℕ) (a : A) (xs : List A)
      → Above key b xs
      → is_none (find key (key a) xs) ≡ false
      → emplace key a xs ≡ xs
  unfolding emplace find
  emplace_present b a [] s e = cc
  emplace_present b a (x ∷ xs) s e =
      ground (arith, emplace_present (suc (key x)) a xs s.1, find_below (key a) (suc (key x)) xs)

  -- Writes and insertions keep what holds of every element.
  pub All-emplace {ℓ} :
      (P : A → Type ℓ) (a : A) (xs : List A) → P a → All P xs → All P (emplace key a xs)
  unfolding emplace
  All-emplace P a [] p ps = (p, tt)
  All-emplace P a (x ∷ xs) p ps = ground (arith, All-emplace P a xs p)

  pub All-erase {ℓ} : (P : A → Type ℓ) (k : ℕ) (xs : List A) → All P xs → All P (erase key k xs)
  unfolding erase
  All-erase P k [] ps = ps
  All-erase P k (x ∷ xs) ps = ground (arith, All-erase P k xs)

  pub All-modify {ℓ} :
      (P : A → Type ℓ) (k : ℕ) (f : A → A) (xs : List A)
      → ((x : A) → P x → P (f x))
      → All P xs
      → All P (modify key k f xs)
  unfolding modify
  All-modify P k f [] step ps = ps
  All-modify P k f (x ∷ xs) step ps = ground (arith, step x ps.0, All-modify P k f xs step)

  pub All-find {ℓ} :
      (P : A → Type ℓ) (k : ℕ) (xs : List A) {x : A} → find key k xs ≡ some x → All P xs → P x
  All-find P k [] e ps = absurd (find-nil k e)
  All-find P k (y ∷ xs) e ps = elim (find-cons_cases k y xs e) [
    | inl later ↦ All-find P k xs later ps.1
    | inr here ↦ subst P here ps.0
  ]

  -- A write to one element, where only that element's new value is known to qualify.
  pub All-modify_found {ℓ} :
      (P : A → Type ℓ) (k : ℕ) (f : A → A) (xs : List A) {x : A}
      → find key k xs ≡ some x
      → P (f x)
      → All P xs
      → All P (modify key k f xs)
  unfolding modify
  All-modify_found P k f [] e p ps = tt
  All-modify_found P k f (y ∷ xs) {x} e p ps = elim (Bool-cases (key y == k)) [
    | inl here ↦ rw here (subst (λ z. P (f z)) (find-cons_here k y xs here e) p, ps.1)
    | inr later ↦ rw later (ps.0, All-modify_found P k f xs (find-cons_later k y xs later e) p ps.1)
  ]

  pub emplace_nonempty : (a : A) (xs : List A) → 0 < length (emplace key a xs)
  unfolding emplace
  emplace_nonempty a [] = omega arith
  emplace_nonempty a (x ∷ xs) = ground (arith, emplace_nonempty a xs)

  pub find_nonempty : (k : ℕ) (xs : List A) {x : A} → find key k xs ≡ some x → 0 < length xs
  find_nonempty k [] e = absurd (find-nil k e)
  find_nonempty k (y ∷ xs) e = omega arith

  pub length-modify : (k : ℕ) (f : A → A) (xs : List A) → length (modify key k f xs) ≡ length xs
  unfolding modify
  length-modify k f [] = refl
  length-modify k f (x ∷ xs) = ground (arith, length-modify k f xs)

  pub length-emplace :
      (b : ℕ) (a : A) (xs : List A)
      → Above key b xs
      → length (emplace key a xs)
        ≡ (if is_none (find key (key a) xs) then suc (length xs) else length xs)
  unfolding emplace find
  length-emplace b a [] s = refl
  length-emplace b a (x ∷ xs) s =
      ground (arith, length-emplace (suc (key x)) a xs s.1, find_below (key a) (suc (key x)) xs)

  pub length-erase :
      (b k : ℕ) (xs : List A)
      → Above key b xs
      → length (erase key k xs) + (if is_none (find key k xs) then 0 else 1) ≡ length xs
  unfolding erase find
  length-erase b k [] s = refl
  length-erase b k (x ∷ xs) s =
      ground (arith, length-erase (suc (key x)) k xs s.1, find_below k (suc (key x)) xs)

  -- A sum over the elements: `emplace` adds the new one, a write changes one term.
  pub total-emplace :
      (m : A → ℕ) (b : ℕ) (a : A) (xs : List A)
      → Above key b xs
      → total m (emplace key a xs)
        ≡ (if is_none (find key (key a) xs) then m a + total m xs else total m xs)
  unfolding emplace find
  total-emplace m b a [] s = refl
  total-emplace m b a (x ∷ xs) s =
      ground (arith, total-emplace m (suc (key x)) a xs s.1, find_below (key a) (suc (key x)) xs)

  pub total-modify :
      (m : A → ℕ) (b k : ℕ) (f : A → A) (xs : List A) {x : A}
      → Above key b xs
      → find key k xs ≡ some x
      → total m (modify key k f xs) + m x ≡ total m xs + m (f x)
  unfolding modify find
  total-modify m b k f [] s e = cc
  total-modify m b k f (y ∷ xs) {x} s e =
      ground (arith, total-modify m (suc (key y)) k f xs {x = x} s.1)

  pub total-erase :
      (m : A → ℕ) (b k : ℕ) (xs : List A) {x : A}
      → Above key b xs
      → find key k xs ≡ some x
      → total m (erase key k xs) + m x ≡ total m xs
  unfolding erase find
  total-erase m b k [] s e = cc
  total-erase m b k (y ∷ xs) {x} s e = ground (arith, total-erase m (suc (key y)) k xs {x = x} s.1)
