-- ===== src/Config/SchemaFor.antt =====
-- What the schema of a bundle's configuration asks of `watchNamespace`
-- (bundle/registry/v1/internal/bundle/registryv1.go).
use library_olm.Prelude.{
  String, Bool, true, false, not, ◌&&◌, ◌||◌, none, some, List, [], ◌∷◌, Map, get, put, delete,
  contains, get-put, ok, arith, Bool-cases, inl, inr, if◌then◌else◌, ◌==◌, ◌≡◌, refl, ap, sym, ◌∙◌,
}
use library_olm.Registry.{
  Kube, RegistryV1, InstallMode, own_namespace, single_namespace, all_namespaces,
  supported_install_modes,
}
use library_olm.Validators.SupportChecks.{supports, contains-supported_install_modes}
use library_olm.Config.{
  Json, object, fields, field_list-fields, as_object, watch_namespace_config_key, has_mode,
  is_watch_namespace_configurable, is_watch_namespace_config_required,
  build_watch_namespace_property, update_schema, add_to_required, remove_from_required,
  build_bundle_config_schema, get_config_schema,
}
use library_olm.Config.Required.{
  get-delete, requires, requires-add_to_required, requires-remove_from_required,
  get-add_to_required, get-remove_from_required,
}

-- The schema `schema` is `base`, whose properties are `properties`, with `property` for the watched
-- namespace where it is allowed, which is required where it is needed.
pub record IsSchemaFor (base properties : Map Json) (property : Json) (allowed needed : Bool)
    (schema : Map Json) : Type 0 where
  modified : Map Json
  has_properties : as_object (get schema "properties") ≡ some modified
  watched : get modified watch_namespace_config_key ≡ (if allowed then some property else none)
  other_properties :
      (name : String)
      → watch_namespace_config_key == name ≡ false
      → get modified name ≡ get properties name
  required :
      (name : String)
      → requires name schema
        ≡ (if name == watch_namespace_config_key then needed else requires name base)
  other_entries :
      (name : String)
      → "properties" == name ≡ false
      → "required" == name ≡ false
      → get schema name ≡ get base name

module _ (base properties : Map Json) where
  -- The properties of the schema, before its list of required fields changes.
  put-properties :
      (m : Map Json)
      → as_object (get (put base "properties" (object (fields m))) "properties") ≡ some m
  unfolding as_object
  put-properties m =
      rw (get-put base "properties" (object (fields m)) "properties")
        (ap (λ n. some n) (field_list-fields m))

  requires-properties :
      (m : Map Json) (name : String)
      → requires name (put base "properties" (object (fields m))) ≡ requires name base
  requires-properties m name = rw (get-put base "properties" (object (fields m)) "required") refl

  schema_for :
      (property : Json) (allowed needed : Bool) (schema m : Map Json)
      → get m watch_namespace_config_key ≡ (if allowed then some property else none)
      → ((name : String)
          → watch_namespace_config_key == name ≡ false
          → get m name ≡ get properties name)
      → ((name : String)
          → requires name schema
            ≡ (if name == watch_namespace_config_key then needed else requires name base))
      → ((name : String)
          → "required" == name ≡ false
          → get schema name ≡ get (put base "properties" (object (fields m))) name)
      → IsSchemaFor base properties property allowed needed schema
  schema_for property allowed needed schema m w o r g = record {
    modified = m;
    has_properties = rw (g "properties" refl) (put-properties m);
    watched = w;
    other_properties = o;
    required = r;
    other_entries =
        λ name p q. rw (g name q, get-put base "properties" (object (fields m)) name, p) refl;
  }

  module _ (property : Json) where
    abbrev with_property : Map Json
    with_property = put properties watch_namespace_config_key property

    abbrev without_property : Map Json
    without_property = delete properties watch_namespace_config_key

    put-other :
        (name : String)
        → watch_namespace_config_key == name ≡ false
        → get with_property name ≡ get properties name
    put-other name h = rw (get-put properties watch_namespace_config_key property name, h) refl

    delete-other :
        (name : String)
        → watch_namespace_config_key == name ≡ false
        → get without_property name ≡ get properties name
    delete-other name h = rw (get-delete properties watch_namespace_config_key name, h) refl

    added :
        (m : Map Json) (name : String)
        → requires name
            (add_to_required (put base "properties" (object (fields m))) watch_namespace_config_key)
          ≡ (if name == watch_namespace_config_key then true else requires name base)
    added m name =
        requires-add_to_required (put base "properties" (object (fields m)))
          watch_namespace_config_key name
        ∙ (rw (requires-properties m name) (ground arith))

    removed :
        (m : Map Json) (name : String)
        → requires name (
            remove_from_required
              (put base "properties" (object (fields m)))
              watch_namespace_config_key)
          ≡ (if name == watch_namespace_config_key then false else requires name base)
    removed m name =
        requires-remove_from_required (put base "properties" (object (fields m)))
          watch_namespace_config_key name
        ∙ (rw (requires-properties m name) (ground arith))

    update_schema-IsSchemaFor :
        (allowed needed : Bool)
        → IsSchemaFor base properties property allowed
            (allowed && needed)
            (update_schema allowed (allowed && needed) property base properties)
    update_schema-IsSchemaFor true true =
        schema_for property true true _ with_property
          (rw (get-put properties watch_namespace_config_key property watch_namespace_config_key)
            refl)
          put-other (added with_property)
          (get-add_to_required (put base "properties" (object (fields with_property)))
            watch_namespace_config_key)
    update_schema-IsSchemaFor true false =
        schema_for property true false _ with_property
          (rw (get-put properties watch_namespace_config_key property watch_namespace_config_key)
            refl)
          put-other (removed with_property)
          (get-remove_from_required (put base "properties" (object (fields with_property)))
            watch_namespace_config_key)
    update_schema-IsSchemaFor false needed =
        schema_for property false false _ without_property
          (rw (get-delete properties watch_namespace_config_key watch_namespace_config_key) refl)
          delete-other (removed without_property)
          (get-remove_from_required (put base "properties" (object (fields without_property)))
            watch_namespace_config_key)

has_mode-supports : (ims : List InstallMode) (mode : String) → has_mode ims mode ≡ supports ims mode
unfolding has_mode
has_mode-supports [] mode = refl
has_mode-supports (im ∷ ims) mode = ground (arith, has_mode-supports ims mode)

-- The supported modes that the code looks up in the two sets are the same.
pub contains-has_mode :
    (k : Kube) (rv1 : RegistryV1 k) (mode : String)
    → has_mode rv1.csv.install_modes mode ≡ contains (supported_install_modes k rv1) mode
contains-has_mode k rv1 mode =
    has_mode-supports rv1.csv.install_modes mode ∙ sym (contains-supported_install_modes k rv1 mode)

-- The property says itself whether it is required.
property-required :
    (ims : List InstallMode)
    → (build_watch_namespace_property ims).1 ≡ is_watch_namespace_config_required ims
unfolding build_watch_namespace_property
property-required ims = elim (Bool-cases (is_watch_namespace_config_required ims)) [
  | inl h ↦ rw h refl
  | inr h ↦ rw h refl
]

-- The set of supported install modes has one that watches a single namespace.
abbrev pub single_or_own : List String → Bool
single_or_own modes = contains modes single_namespace || contains modes own_namespace

-- The schema of a bundle exists wherever the base schema has an object of properties. It is the base
-- schema, where the property `watchNamespace` is there exactly if the bundle supports the install
-- mode SingleNamespace or OwnNamespace, and is required exactly if it moreover does not support
-- AllNamespaces. All other properties, required fields and entries are those of the base schema.
pub get_config_schema-IsSchemaFor :
    {E : Type 0} (k : Kube) (rv1 : RegistryV1 k) (base properties : Map Json)
    → as_object (get base "properties") ≡ some properties
    → (schema : Map Json) × (get_config_schema {E = E} k (ok base) rv1 ≡ ok schema
        × IsSchemaFor base properties
            (build_watch_namespace_property rv1.csv.install_modes).0
            (single_or_own (supported_install_modes k rv1))
            (single_or_own (supported_install_modes k rv1)
              && not (contains (supported_install_modes k rv1) all_namespaces))
            schema)
unfolding get_config_schema build_bundle_config_schema is_watch_namespace_configurable
    is_watch_namespace_config_required
get_config_schema-IsSchemaFor k rv1 base properties h = (
  update_schema configurable (build_watch_namespace_property modes).1
      (build_watch_namespace_property modes).0 base properties,
  (
    rw h refl,
    rw
        (
          property-required modes,
          ← (contains-has_mode k rv1 single_namespace),
          ← (contains-has_mode k rv1 own_namespace),
          ← (contains-has_mode k rv1 all_namespaces),
        )
        (update_schema-IsSchemaFor base properties (build_watch_namespace_property modes).0
          configurable (not (has_mode modes all_namespaces))),
  ),
)
  where
    modes : List InstallMode
    modes = rv1.csv.install_modes

    configurable : Bool
    configurable = has_mode modes single_namespace || has_mode modes own_namespace
