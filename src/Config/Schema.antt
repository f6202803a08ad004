-- ===== src/Config/Schema.antt =====
-- bundle/registry/v1/internal/bundle/registryv1.go: the schema of a bundle's configuration, from its
-- install modes. The base schema, which the code decodes from an embedded file, is an argument.
use library_olm.Prelude.{
  String, Bool, true, false, not, ◌&&◌, ◌||◌, Option, none, some, List, [], ◌∷◌, ◌++◌, ℤ, pos, Map,
  get, put, delete, any, keep, Result, ok, err, ◌==◌, if◌then◌else◌,
}
use library_olm.Registry.{
  Kube, InstallMode, own_namespace, single_namespace, all_namespaces, RegistryV1,
}
use library_olm.Config.Values.{
  Json, string, number, array, object, elements, fields, as_object, as_array, is_field,
}

-- The errors of `buildBundleConfigSchema`: the base schema's own, and no object of properties in it.
pub data SchemaError (E : Type 0) : Type 0 where
  base_schema : E → SchemaError E
  missing_properties : SchemaError E

abbrev pub watch_namespace_config_key : String
watch_namespace_config_key = "watchNamespace"

abbrev namespace_name_pattern : String
namespace_name_pattern = "^[a-z0-9]([-a-z0-9]*[a-z0-9])?$"

abbrev namespace_name_max_length : ℤ
namespace_name_max_length = pos 63

abbrev pub format_own_namespace : String
format_own_namespace = "ownNamespaceInstallMode"

abbrev pub format_single_namespace : String
format_single_namespace = "singleNamespaceInstallMode"

abbrev pub add_field : Map Json → String → Option (List Json) → Map Json
add_field schema name (some required) =
    if any (is_field name) required
    then schema
    else put schema "required" (array (elements (required ++ (string name ∷ []))))
add_field schema name none = put schema "required" (array (elements (string name ∷ [])))

unfoldable pub add_to_required : Map Json → String → Map Json
add_to_required schema name = add_field schema name (as_array (get schema "required"))

abbrev pub put_required : Map Json → List Json → Map Json
put_required schema [] = delete schema "required"
put_required schema (x ∷ xs) = put schema "required" (array (elements (x ∷ xs)))

abbrev pub remove_field : Map Json → String → Option (List Json) → Map Json
remove_field schema name (some required) =
    put_required schema (keep (λ x. not (is_field name x)) required)
remove_field schema name none = schema

unfoldable pub remove_from_required : Map Json → String → Map Json
remove_from_required schema name = remove_field schema name (as_array (get schema "required"))

-- `installModes.Has` of a supported mode of the type
unfoldable pub has_mode : List InstallMode → String → Bool
has_mode modes t = any (λ im. im.mode_type == t && im.supported) modes

unfoldable pub select_namespace_format : Bool → Bool → String
select_namespace_format has_own has_single =
    if has_own && not has_single
    then format_own_namespace
    else if has_single && not has_own
    then format_single_namespace
    else ""

unfoldable pub is_watch_namespace_configurable : List InstallMode → Bool
unfolding has_mode
is_watch_namespace_configurable modes =
    has_mode modes single_namespace || has_mode modes own_namespace

unfoldable pub is_watch_namespace_config_required : List InstallMode → Bool
unfolding is_watch_namespace_configurable has_mode
is_watch_namespace_config_required modes =
    is_watch_namespace_configurable modes && not (has_mode modes all_namespaces)

abbrev description : String
description = "The namespace that the operator should watch for custom resources"

abbrev watch_namespace_schema : String → Map Json
watch_namespace_schema format =
    let base =
      ("type", string "string")
      ∷ ("minLength", number (pos 1))
      ∷ ("maxLength", number namespace_name_max_length)
      ∷ ("pattern", string namespace_name_pattern)
      ∷ [] in
    if format == "" then base else put base "format" (string format)

unfoldable pub build_watch_namespace_property : List InstallMode → Json × Bool
unfolding select_namespace_format is_watch_namespace_config_required
build_watch_namespace_property modes =
    let schema =
      watch_namespace_schema (
        select_namespace_format (has_mode modes own_namespace) (has_mode modes single_namespace)) in
    if is_watch_namespace_config_required modes
    then (object (fields (put schema "description" (string description))), true)
    else (
      object (
          fields (
            ("description", string description)
            ∷ (
              "anyOf",
              array (
                  elements
                    (object (fields (("type", string "null") ∷ [])) ∷ object (fields schema) ∷ [])),
            )
            ∷ [])),
      false,
    )

-- The changes of the base schema, where `watchNamespace` is configurable and where it is required.
-- The properties are an object that the schema holds: they change in place.
abbrev pub update_schema : Bool → Bool → Json → Map Json → Map Json → Map Json
update_schema configurable is_required property schema properties =
    if configurable
    then (let updated =
          put schema "properties"
            (object (fields (put properties watch_namespace_config_key property))) in
        if is_required
        then add_to_required updated watch_namespace_config_key
        else remove_from_required updated watch_namespace_config_key)
    else remove_from_required
        (put schema "properties" (object (fields (delete properties watch_namespace_config_key))))
        watch_namespace_config_key

abbrev set_watch_namespace : List InstallMode → Map Json → Map Json → Map Json
set_watch_namespace modes schema properties =
    let property = build_watch_namespace_property modes in
    update_schema (is_watch_namespace_configurable modes) property.1 property.0 schema properties

module _ {E : Type 0} where
  abbrev modify_schema :
      List InstallMode → Map Json → Option (Map Json) → Result (SchemaError E) (Map Json)
  modify_schema modes schema (some properties) = ok (set_watch_namespace modes schema properties)
  modify_schema modes schema none = err missing_properties

  unfoldable pub build_bundle_config_schema :
      Result E (Map Json) → List InstallMode → Result (SchemaError E) (Map Json)
  unfolding add_to_required remove_from_required build_watch_namespace_property
  build_bundle_config_schema (err e) modes = err (base_schema e)
  build_bundle_config_schema (ok schema) modes =
      modify_schema modes schema (as_object (get schema "properties"))

  unfoldable pub get_config_schema :
      (k : Kube) → Result E (Map Json) → RegistryV1 k → Result (SchemaError E) (Map Json)
  unfolding build_bundle_config_schema
  get_config_schema k base rv1 = build_bundle_config_schema base rv1.csv.install_modes
