-- ===== src/Config/Tests.antt =====
-- The schema of a bundle that supports OwnNamespace only, from a small base schema.
use library_olm.Prelude.{
  insert, ◌↔◌, contains, String, [], ◌∷◌, Map, ◌≡◌, refl, true, false, ok, not, contains, ◌&&◌, get,
}
use library_olm.Samples.{kube}
use library_olm.Registry.{
  RegistryV1, own_namespace, single_namespace, all_namespaces, collect_modes,
  supported_install_modes,
}
use library_olm.Config.{
  Json, string, array, object, elements, fields, as_object, get_config_schema, validate_format,
  select_namespace_format, has_mode, build_watch_namespace_property,
}
use library_olm.Generators.{validate_target_namespaces}
use library_olm.Config.Agreement.{validate_format-validate_target_namespaces}
use library_olm.Config.SchemaFor.{IsSchemaFor, single_or_own, get_config_schema-IsSchemaFor}

abbrev own_only : RegistryV1 kube
own_only = record {
  package_name = "pkg";
  csv = record {
    name = "pkg.v1";
    annotations = [];
    install_modes =
        record { mode_type = own_namespace; supported = true }
        ∷ record { mode_type = all_namespaces; supported = false }
        ∷ [];
    deployment_specs = [];
    permissions = [];
    cluster_permissions = [];
    owned = [];
    webhook_definitions = [];
  };
  crds = [];
  others = [];
}

abbrev base_properties : Map Json
base_properties = ("deploymentConfig", string "any") ∷ ("watchNamespace", string "any") ∷ []

abbrev base : Map Json
base =
    ("type", string "object")
    ∷ ("properties", object (fields base_properties))
    ∷ ("required", array (elements (string "deploymentConfig" ∷ [])))
    ∷ []

get_config_schema-IsSchemaFor_example :
    (schema : Map Json) × (get_config_schema {E = String} kube (ok base) own_only ≡ ok schema
      × IsSchemaFor base base_properties
          (build_watch_namespace_property own_only.csv.install_modes).0
          (single_or_own (supported_install_modes kube own_only))
          (single_or_own (supported_install_modes kube own_only)
            && not (contains (supported_install_modes kube own_only) all_namespaces))
          schema)
unfolding get as_object fields
get_config_schema-IsSchemaFor_example =
    get_config_schema-IsSchemaFor kube own_only base base_properties refl

validate_format-validate_target_namespaces_example :
    (validate_format
        (select_namespace_format
          (has_mode own_only.csv.install_modes own_namespace)
          (has_mode own_only.csv.install_modes single_namespace))
        "operators"
        (string "operators")
      ≡ ok tt)
    ↔ (validate_target_namespaces kube own_only "operators" ("operators" ∷ []) ≡ ok tt)
unfolding supported_install_modes collect_modes contains insert
validate_format-validate_target_namespaces_example =
    validate_format-validate_target_namespaces kube own_only "operators" "operators" refl refl refl
