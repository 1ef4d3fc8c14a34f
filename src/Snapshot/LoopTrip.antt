-- ===== src/Snapshot/LoopTrip.antt =====
-- The loops over the members of a set that write and read XML elements, src/DiscoveryItem.cpp.
use discovery_server.Prelude.{
  or_false, ℕ, suc, ◌≡◌, ◌≤◌, refl, sym, ap, subst, ◌∙◌, Bool, true, false, ◌||◌, Option, some,
  List, [], ◌∷◌, ◌++◌, map, arith, String, str_eq, All,
}
use mathlib.Core.List.{append_assoc, append-nil}
use discovery_server.OrderedSet.{emplace}
use discovery_server.OrderedSet.Order.{IsSorted, Above}
use discovery_server.Item.{Guid}
use discovery_server.Xml.{Xml, GuidText}
use discovery_server.Snapshot.Writing.{insert_each}
use discovery_server.Snapshot.Reading.{read_each}
use discovery_server.Snapshot.Reloaded.{any}

module _ {A : Type 0} (key : A → ℕ) where
  Above-behind : (b : ℕ) (xs ys : List A) (a : A) → Above key b (xs ++ a ∷ ys) → b ≤ key a
  Above-behind b [] ys a s = s.0
  Above-behind b (x ∷ xs) ys a s = omega (arith, s.0, Above-behind (suc (key x)) xs ys a s.1)

  -- An element behind all others is appended.
  emplace_last :
      (b : ℕ) (xs ys : List A) (a : A)
      → Above key b (xs ++ a ∷ ys)
      → emplace key a xs ≡ xs ++ a ∷ []
  unfolding emplace
  emplace_last b [] ys a s = refl
  emplace_last b (x ∷ xs) ys a s =
      ground (arith, Above-behind (suc (key x)) xs ys a s.1, emplace_last (suc (key x)) xs ys a s.1)

  pub Above-map :
      (f : A → A) (b : ℕ) (xs : List A)
      → ((a : A) → key (f a) ≡ key a)
      → Above key b xs
      → Above key b (map f xs)
  Above-map f b [] same s = tt
  Above-map f b (x ∷ xs) same s = rw (same x) (s.0, Above-map f (suc (key x)) xs same s.1)

module _ (x : Xml) (g : GuidText) where
  open x use {
    Element, name, attribute, children, attribute-insert_end_child, children-insert_end_child,
    name-insert_end_child,
  }

  pub attribute-insert_each :
      {A : Type 0} (k : String) (f : A → Element) (as' : List A) (e : Element)
      → attribute k (insert_each x g f as' e) ≡ attribute k e
  unfolding insert_each
  attribute-insert_each k f [] e = refl
  attribute-insert_each k f (a ∷ as') e =
      attribute-insert_each k f as' (x.insert_end_child (f a) e)
      ∙ attribute-insert_end_child k (f a) e

  pub name-insert_each :
      {A : Type 0} (f : A → Element) (as' : List A) (e : Element)
      → name (insert_each x g f as' e) ≡ name e
  unfolding insert_each
  name-insert_each f [] e = refl
  name-insert_each f (a ∷ as') e =
      name-insert_each f as' (x.insert_end_child (f a) e) ∙ name-insert_end_child (f a) e

  pub children-insert_each :
      {A : Type 0} (k : String) (f : A → Element) (as' : List A) (e : Element)
      → ((a : A) → str_eq (name (f a)) k ≡ true)
      → children k (insert_each x g f as' e) ≡ children k e ++ map f as'
  unfolding insert_each
  children-insert_each k f [] e h = sym (append-nil (children k e))
  children-insert_each k f (a ∷ as') e h =
      children-insert_each k f as' (x.insert_end_child (f a) e) h
      ∙ ap (λ es. es ++ map f as') (children-insert_end_child k (f a) e ∙ rw (h a) refl)
      ∙ append_assoc (children k e) (f a ∷ []) (map f as')

  pub children-insert_others :
      {A : Type 0} (k : String) (f : A → Element) (as' : List A) (e : Element)
      → ((a : A) → str_eq (name (f a)) k ≡ false)
      → children k (insert_each x g f as' e) ≡ children k e
  unfolding insert_each
  children-insert_others k f [] e h = refl
  children-insert_others k f (a ∷ as') e h =
      children-insert_others k f as' (x.insert_end_child (f a) e) h
      ∙ children-insert_end_child k (f a) e
      ∙ rw (h a) refl

  or_assoc : (a b c : Bool) → ((a || b) || c) ≡ (a || (b || c))
  or_assoc true b c = refl
  or_assoc false b c = refl

  -- What was written of each member comes back, in order, behind what is there.
  pub read_each-map :
      {A : Type 0} (key : A → Guid) (f : Bool → Element → Option (A × Bool)) (to : A → Element)
      (re : A → A) (shows : A → Bool) (as' acc : List A) (shown : Bool)
      → All (λ a. (b : Bool) → f b (to a) ≡ some (re a, b || shows a)) as'
      → IsSorted key (acc ++ map re as')
      → read_each x g key f (map to as') acc shown
        ≡ some (acc ++ map re as', shown || any shows as')
  unfolding read_each
  read_each-map key f to re shows [] acc shown h s = cc (append-nil acc, or_false shown)
  read_each-map key f to re shows (a ∷ as') acc shown h s = rw (h.0 shown) (
      ap (λ es. read_each x g key f (map to as') es (shown || shows a))
        (emplace_last key 0 acc (map re as') (re a) s)
      ∙ read_each-map key f to re shows as' (acc ++ re a ∷ []) (shown || shows a) h.1
          (subst (IsSorted key) (sym regroup) s)
      ∙ cc (regroup, or_assoc shown (shows a) (any shows as')))
    where
      regroup : ((acc ++ re a ∷ []) ++ map re as') ≡ acc ++ re a ∷ map re as'
      regroup = append_assoc acc (re a ∷ []) (map re as')
