-- ===== src/Config/Required.antt =====
-- What addToRequired and removeFromRequired (bundle/registry/v1/internal/bundle/registryv1.go) do to
-- the required fields of a schema.
use library_olm.Prelude.{
  String, Bool, true, false, not, ◌&&◌, ◌||◌, Option, none, some, List, [], ◌∷◌, ◌++◌, Map, get,
  put, delete, any, keep, get-put, eq_iff, arith, Bool-cases, inl, inr, if◌then◌else◌, ◌==◌, ◌≡◌,
  refl, ap, ◌∙◌,
}
use library_olm.Config.{
  Json, null, bool, number, string, array, object, elements, element_list-elements, as_array,
  is_field, add_field, add_to_required, put_required, remove_field, remove_from_required,
}

pub get-delete {ℓ} :
    {A : Type ℓ} (m : Map A) (k b : String)
    → get (delete m k) b ≡ (if k == b then none else get m b)
unfolding get delete keep
get-delete [] k b = ground arith
get-delete (e ∷ m) k b = ground (arith, get-delete m k b, eq_iff e.0 k, eq_iff k b, eq_iff e.0 b)

abbrev pub required_in : String → Option (List Json) → Bool
required_in name (some xs) = any (is_field name) xs
required_in name none = false

-- A field stands in the list `required` of a schema.
abbrev pub requires : String → Map Json → Bool
requires name schema = required_in name (as_array (get schema "required"))

-- The list that a schema has after its entry is set.
array-put :
    (schema : Map Json) (xs : List Json)
    → as_array (get (put schema "required" (array (elements xs))) "required") ≡ some xs
unfolding as_array
array-put schema xs =
    rw (get-put schema "required" (array (elements xs)) "required")
      (ap (λ ys. some ys) (element_list-elements xs))

any-append : (p : Json → Bool) (xs ys : List Json) → any p (xs ++ ys) ≡ (any p xs || any p ys)
any-append p [] ys = refl
any-append p (x ∷ xs) ys = ground (arith, any-append p xs ys)

any-keep :
    (field name : String) (xs : List Json)
    → any (is_field name) (keep (λ x. not (is_field field x)) xs)
      ≡ (not (name == field) && any (is_field name) xs)
unfolding keep
any-keep field name [] = ground arith
any-keep field name (string s ∷ xs) =
    ground (arith, any-keep field name xs, eq_iff s field, eq_iff s name, eq_iff name field)
any-keep field name (null ∷ xs) = any-keep field name xs
any-keep field name (bool b ∷ xs) = any-keep field name xs
any-keep field name (number n ∷ xs) = any-keep field name xs
any-keep field name (array ys ∷ xs) = any-keep field name xs
any-keep field name (object m ∷ xs) = any-keep field name xs

-- A list with the field has the name that equals it.
any-same :
    (field name : String) (xs : List Json)
    → name == field ≡ true
    → any (is_field field) xs ≡ true
    → any (is_field name) xs ≡ true
any-same field name xs e old = rw (equal name field e) old
  where
    equal : (a b : String) → a == b ≡ true → a ≡ b
    equal a b = (eq_iff a b).0

required_in-add :
    (schema : Map Json) (field name : String) (r : Option (List Json))
    → as_array (get schema "required") ≡ r
    → requires name (add_field schema field r) ≡ (name == field || required_in name r)
required_in-add schema field name none h =
    rw (array-put schema (string field ∷ [])) (ground (arith, eq_iff name field, eq_iff field name))
required_in-add schema field name (some xs) h = elim (Bool-cases (any (is_field field) xs)) [
  | inl old ↦ rw (old, h) (present old)
  | inr new ↦
      rw (new, array-put schema (xs ++ (string field ∷ [])))
        (any-append (is_field name) xs (string field ∷ [])
          ∙ (ground (arith, eq_iff name field, eq_iff field name)))
]
  where
    present :
        any (is_field field) xs ≡ true
        → any (is_field name) xs ≡ (name == field || any (is_field name) xs)
    present old = elim (Bool-cases (name == field)) [
      | inl e ↦ rw e (any-same field name xs e old)
      | inr e ↦ rw e refl
    ]

-- Adding a field requires that field besides those of the schema.
pub requires-add_to_required :
    (schema : Map Json) (field name : String)
    → requires name (add_to_required schema field) ≡ (name == field || requires name schema)
unfolding add_to_required
requires-add_to_required schema field name =
    required_in-add schema field name (as_array (get schema "required")) refl

required_in-put :
    (schema : Map Json) (name : String) (xs : List Json)
    → requires name (put_required schema xs) ≡ any (is_field name) xs
unfolding as_array
required_in-put schema name [] = rw (get-delete schema "required" "required") refl
required_in-put schema name (x ∷ xs) = rw (array-put schema (x ∷ xs)) refl

required_in-remove :
    (schema : Map Json) (field name : String) (r : Option (List Json))
    → as_array (get schema "required") ≡ r
    → requires name (remove_field schema field r) ≡ (not (name == field) && required_in name r)
required_in-remove schema field name none h = rw h (ground arith)
required_in-remove schema field name (some xs) h =
    required_in-put schema name (keep (λ x. not (is_field field x)) xs) ∙ any-keep field name xs

-- Removing a field requires the schema's other fields.
pub requires-remove_from_required :
    (schema : Map Json) (field name : String)
    → requires name (remove_from_required schema field)
      ≡ (not (name == field) && requires name schema)
unfolding remove_from_required
requires-remove_from_required schema field name =
    required_in-remove schema field name (as_array (get schema "required")) refl

module _ (schema : Map Json) (field name : String) (other : "required" == name ≡ false) where
  add-get : (r : Option (List Json)) → get (add_field schema field r) name ≡ get schema name
  add-get none =
      rw (get-put schema "required" (array (elements (string field ∷ []))) name, other) refl
  add-get (some xs) = elim (Bool-cases (any (is_field field) xs)) [
    | inl old ↦ rw old refl
    | inr new ↦
        rw
          (
            new,
            get-put schema "required" (array (elements (xs ++ (string field ∷ [])))) name,
            other,
          )
          refl
  ]

  pub get-add_to_required : get (add_to_required schema field) name ≡ get schema name
  unfolding add_to_required
  get-add_to_required = add-get (as_array (get schema "required"))

  put-get : (xs : List Json) → get (put_required schema xs) name ≡ get schema name
  put-get [] = rw (get-delete schema "required" name, other) refl
  put-get (x ∷ xs) = rw (get-put schema "required" (array (elements (x ∷ xs))) name, other) refl

  remove-get : (r : Option (List Json)) → get (remove_field schema field r) name ≡ get schema name
  remove-get none = refl
  remove-get (some xs) = put-get (keep (λ x. not (is_field field x)) xs)

  pub get-remove_from_required : get (remove_from_required schema field) name ≡ get schema name
  unfolding remove_from_required
  get-remove_from_required = remove-get (as_array (get schema "required"))
