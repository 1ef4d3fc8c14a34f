-- ===== src/Xml.antt =====
-- What the program uses of tinyxml2, and of the stream operators of GUID_t: a document is built and
-- read through these operations only. The laws are those that their documentation states.
use discovery_server.Prelude.{
  ◌≡◌, Bool, false, Option, none, some, List, [], ◌∷◌, ◌++◌, String, str_eq, if◌then◌else◌,
  bind_option, from_option,
}
use discovery_server.Prelude.Int.{ℤ, pos}
use discovery_server.Item.{Guid}

pub record Xml : Type 1 where
  pub Element : Type 0
  -- XMLDocument::NewElement, and XMLElement::Name, SetAttribute, SetText and InsertEndChild, whose
  -- first argument is the child.
  pub new_element : String → Element
  pub name : Element → String
  pub set_attribute : String → String → Element → Element
  pub set_text : String → Element → Element
  pub insert_end_child : Element → Element → Element
  -- Attribute and GetText: `none` is the null pointer.
  pub attribute : String → Element → Option String
  pub get_text : Element → Option String
  -- The elements of a name that FirstChildElement and NextSiblingElement walk over.
  pub children : String → Element → List Element
  -- All child elements, of any name.
  pub elements : Element → List Element
  -- How an attribute of another type is written, and read where the text is well formed.
  pub of_int : ℤ → String
  pub to_int : String → Option ℤ
  pub of_bool : Bool → String
  pub to_bool : String → Option Bool
  pub name-new_element : (n : String) → name (new_element n) ≡ n
  pub name-set_attribute : (k v : String) (e : Element) → name (set_attribute k v e) ≡ name e
  pub name-set_text : (t : String) (e : Element) → name (set_text t e) ≡ name e
  pub name-insert_end_child : (c e : Element) → name (insert_end_child c e) ≡ name e
  pub attribute-new_element : (k n : String) → attribute k (new_element n) ≡ none
  pub attribute-set_attribute :
      (k j v : String) (e : Element)
      → attribute k (set_attribute j v e) ≡ (if str_eq j k then some v else attribute k e)
  pub attribute-insert_end_child :
      (k : String) (c e : Element) → attribute k (insert_end_child c e) ≡ attribute k e
  pub children-new_element : (k n : String) → children k (new_element n) ≡ []
  pub children-set_attribute :
      (k j v : String) (e : Element) → children k (set_attribute j v e) ≡ children k e
  pub children-insert_end_child :
      (k : String) (c e : Element)
      → children k (insert_end_child c e)
        ≡ (if str_eq (name c) k then children k e ++ c ∷ [] else children k e)
  -- An empty text is none in a file.
  pub get_text-set_text :
      (t : String) (e : Element) → str_eq t "" ≡ false → get_text (set_text t e) ≡ some t
  pub to_int-of_int : (n : ℤ) → to_int (of_int n) ≡ some n
  pub to_bool-of_bool : (b : Bool) → to_bool (of_bool b) ≡ some b

module _ (x : Xml) where
  open x use {Element, attribute, to_int, to_bool}

  -- Int64Attribute: 0 where there is no such attribute, or no such number in it.
  unfoldable pub int64_attribute : String → Element → ℤ
  int64_attribute k e = from_option (bind_option (attribute k e) to_int) (pos 0)

  -- BoolAttribute, with its default.
  unfoldable pub bool_attribute : String → Bool → Element → Bool
  bool_attribute k default e = from_option (bind_option (attribute k e) to_bool) default

-- The stream operators of GuidPrefix_t and EntityId_t, with what tells whether two prefixes agree.
pub record GuidText : Type 0 where
  pub prefix_text : Guid → String
  pub entity_text : Guid → String
  pub read_guid : String → String → Guid
  pub same_prefix : Guid → Guid → Bool
  pub read_guid_texts : (g : Guid) → read_guid (prefix_text g) (entity_text g) ≡ g
