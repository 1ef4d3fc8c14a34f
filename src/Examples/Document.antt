-- ===== src/Examples/Document.antt =====
-- A document of tests: elements as trees, numbers as strokes behind their sign. It has what
-- Xml and GuidText ask of tinyxml2 and of the texts of GUIDs.
use discovery_server.Prelude.{
  ℕ, zero, suc, ◌+◌, ◌*◌, ◌/◌, ◌%◌, ◌≡◌, refl, ap, Bool, true, false, Option, none, some, List, [],
  ◌∷◌, ◌++◌, String, str_eq, eq_iff, arith, ◌==◌, if◌then◌else◌,
}
use discovery_server.Prelude.Int.{ℤ, pos, negsuc}
use discovery_server.Xml.{Xml, GuidText}

mutual
  pub data Tree : Type 0 where
    tree : String → List (String × String) → Option String → Trees → Tree

  pub data Trees : Type 0 where
    leaf : Trees
    then_tree : Tree → Trees → Trees

abbrev tree_name : Tree → String
tree_name (tree n as' t ts) = n

abbrev last_tree : Tree → Trees → Trees
last_tree c leaf = then_tree c leaf
last_tree c (then_tree t ts) = then_tree t (last_tree c ts)

abbrev named : String → Trees → List Tree
named k leaf = []
named k (then_tree t ts) = if str_eq (tree_name t) k then t ∷ named k ts else named k ts

abbrev pub all_trees : Trees → List Tree
all_trees leaf = []
all_trees (then_tree t ts) = t ∷ all_trees ts

abbrev tree_elements : Tree → List Tree
tree_elements (tree n as' t ts) = all_trees ts

abbrev lookup : String → List (String × String) → Option String
lookup k [] = none
lookup k (a ∷ as') = if str_eq a.0 k then some a.1 else lookup k as'

abbrev insert : String → String → List (String × String) → List (String × String)
insert k v [] = (k, v) ∷ []
insert k v (a ∷ as') = if str_eq a.0 k then (k, v) ∷ as' else a ∷ insert k v as'

abbrev tree_attribute : String → Tree → Option String
tree_attribute k (tree n as' t ts) = lookup k as'

abbrev tree_children : String → Tree → List Tree
tree_children k (tree n as' t ts) = named k ts

abbrev tree_text : Tree → Option String
tree_text (tree n as' t ts) = t

abbrev put_attribute : String → String → Tree → Tree
put_attribute k v (tree n as' t ts) = tree n (insert k v as') t ts

abbrev put_text : String → Tree → Tree
put_text v (tree n as' t ts) = tree n as' (some v) ts

abbrev put_child : Tree → Tree → Tree
put_child c (tree n as' t ts) = tree n as' t (last_tree c ts)

abbrev strokes : ℕ → String
strokes zero = ""
strokes (suc n) = String.◌∷◌ "1" (strokes n)

abbrev count_strokes : String → ℕ
count_strokes String.[] = 0
count_strokes (String.◌∷◌ c s) = suc (count_strokes s)

abbrev int_text : ℤ → String
int_text (pos n) = String.◌∷◌ "+" (strokes n)
int_text (negsuc n) = String.◌∷◌ "-" (strokes n)

abbrev text_int : String → Option ℤ
text_int String.[] = none
text_int (String.◌∷◌ c s) =
    if str_eq (String.◌∷◌ c String.[]) "+"
    then some (pos (count_strokes s))
    else some (negsuc (count_strokes s))

abbrev bool_text : Bool → String
bool_text b = if b then "true" else "false"

abbrev text_bool : String → Option Bool
text_bool s = if str_eq s "true" then some true else if str_eq s "false" then some false else none

pub count_strokes-strokes : (n : ℕ) → count_strokes (strokes n) ≡ n
count_strokes-strokes zero = refl
count_strokes-strokes (suc n) = ap suc (count_strokes-strokes n)

pub text_int-int_text : (n : ℤ) → text_int (int_text n) ≡ some n
text_int-int_text (pos n) = ap (λ k. some (pos k)) (count_strokes-strokes n)
text_int-int_text (negsuc n) = ap (λ k. some (negsuc k)) (count_strokes-strokes n)

pub text_bool-bool_text : (b : Bool) → text_bool (bool_text b) ≡ some b
text_bool-bool_text true = refl
text_bool-bool_text false = refl

lookup-insert :
    (k j v : String) (as' : List (String × String))
    → lookup k (insert j v as') ≡ (if str_eq j k then some v else lookup k as')
lookup-insert k j v [] = refl
lookup-insert k j v (a ∷ as') =
    ground (arith, eq_iff a.0 j, eq_iff a.0 k, eq_iff j k, lookup-insert k j v as')

named-last_tree :
    (k : String) (c : Tree) (ts : Trees)
    → named k (last_tree c ts)
      ≡ (if str_eq (tree_name c) k then named k ts ++ c ∷ [] else named k ts)
named-last_tree k c leaf = refl
named-last_tree k c (then_tree t ts) = ground (arith, named-last_tree k c ts)

pub name-put_attribute : (k v : String) (e : Tree) → tree_name (put_attribute k v e) ≡ tree_name e
name-put_attribute k v (tree n as' t ts) = refl

pub name-put_text : (v : String) (e : Tree) → tree_name (put_text v e) ≡ tree_name e
name-put_text v (tree n as' t ts) = refl

pub name-put_child : (c e : Tree) → tree_name (put_child c e) ≡ tree_name e
name-put_child c (tree n as' t ts) = refl

pub attribute-put_attribute :
    (k j v : String) (e : Tree)
    → tree_attribute k (put_attribute j v e) ≡ (if str_eq j k then some v else tree_attribute k e)
attribute-put_attribute k j v (tree n as' t ts) = lookup-insert k j v as'

pub attribute-put_child :
    (k : String) (c e : Tree) → tree_attribute k (put_child c e) ≡ tree_attribute k e
attribute-put_child k c (tree n as' t ts) = refl

pub children-put_attribute :
    (k j v : String) (e : Tree) → tree_children k (put_attribute j v e) ≡ tree_children k e
children-put_attribute k j v (tree n as' t ts) = refl

pub children-put_child :
    (k : String) (c e : Tree)
    → tree_children k (put_child c e)
      ≡ (if str_eq (tree_name c) k then tree_children k e ++ c ∷ [] else tree_children k e)
children-put_child k c (tree n as' t ts) = named-last_tree k c ts

pub text-put_text :
    (v : String) (e : Tree) → str_eq v "" ≡ false → tree_text (put_text v e) ≡ some v
text-put_text v (tree n as' t ts) h = refl

abbrev pub document : Xml
document = record {
  Element = Tree;
  new_element = λ n. tree n [] none leaf;
  name = tree_name;
  set_attribute = put_attribute;
  set_text = put_text;
  insert_end_child = put_child;
  attribute = tree_attribute;
  get_text = tree_text;
  children = tree_children;
  elements = tree_elements;
  of_int = int_text;
  to_int = text_int;
  of_bool = bool_text;
  to_bool = text_bool;
  name-new_element = λ n. refl;
  name-set_attribute = name-put_attribute;
  name-set_text = name-put_text;
  name-insert_end_child = name-put_child;
  attribute-new_element = λ k n. refl;
  attribute-set_attribute = attribute-put_attribute;
  attribute-insert_end_child = attribute-put_child;
  children-new_element = λ k n. refl;
  children-set_attribute = children-put_attribute;
  children-insert_end_child = children-put_child;
  get_text-set_text = text-put_text;
  to_int-of_int = text_int-int_text;
  to_bool-of_bool = text_bool-bool_text;
}

-- The prefix of a GUID is the number of times that 16 goes into it.
abbrev pub guid_text : GuidText
guid_text = record {
  prefix_text = λ g. strokes (g / 16);
  entity_text = λ g. strokes (g % 16);
  read_guid = λ p e. count_strokes p * 16 + count_strokes e;
  same_prefix = λ g h. (g / 16) == (h / 16);
  read_guid_texts =
      λ g. omega (arith, count_strokes-strokes (g / 16), count_strokes-strokes (g % 16));
}
