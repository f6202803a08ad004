-- ===== src/Config/Values.antt =====
-- The values that `map[string]any` holds after `json.Unmarshal`.
use library_olm.Prelude.{
  String, Bool, false, Option, none, some, List, [], ◌∷◌, ℤ, Map, ◌==◌, ◌≡◌, refl, ap,
}

mutual
  pub data Json : Type 0 where
    null : Json
    bool : Bool → Json
    number : ℤ → Json
    string : String → Json
    array : Elements → Json
    object : Fields → Json

  pub data Elements : Type 0 where
    no_elements : Elements
    element : Json → Elements → Elements

  pub data Fields : Type 0 where
    no_fields : Fields
    field : String → Json → Fields → Fields

unfoldable pub elements : List Json → Elements
elements [] = no_elements
elements (x ∷ xs) = element x (elements xs)

unfoldable pub element_list : Elements → List Json
element_list no_elements = []
element_list (element x xs) = x ∷ element_list xs

unfoldable pub fields : Map Json → Fields
fields [] = no_fields
fields (e ∷ m) = field e.0 e.1 (fields m)

unfoldable pub field_list : Fields → Map Json
field_list no_fields = []
field_list (field name x m) = (name, x) ∷ field_list m

pub element_list-elements : (xs : List Json) → element_list (elements xs) ≡ xs
unfolding element_list elements
element_list-elements [] = refl
element_list-elements (x ∷ xs) = ap (λ ys. x ∷ ys) (element_list-elements xs)

pub field_list-fields : (m : Map Json) → field_list (fields m) ≡ m
unfolding field_list fields
field_list-fields [] = refl
field_list-fields (e ∷ m) = ap (λ n. e ∷ n) (field_list-fields m)

-- The type assertion `v.(map[string]any)` on an entry, which may be missing.
unfoldable pub as_object : Option Json → Option (Map Json)
unfolding field_list
as_object (some (object m)) = some (field_list m)
as_object (some null) = none
as_object (some (bool b)) = none
as_object (some (number n)) = none
as_object (some (string s)) = none
as_object (some (array xs)) = none
as_object none = none

-- The type assertion `v.([]any)`.
unfoldable pub as_array : Option Json → Option (List Json)
unfolding element_list
as_array (some (array xs)) = some (element_list xs)
as_array (some null) = none
as_array (some (bool b)) = none
as_array (some (number n)) = none
as_array (some (string s)) = none
as_array (some (object m)) = none
as_array none = none

-- The comparison of a value of type `any` with a string.
abbrev pub is_field : String → Json → Bool
is_field name (string s) = s == name
is_field name null = false
is_field name (bool b) = false
is_field name (number n) = false
is_field name (array xs) = false
is_field name (object m) = false
