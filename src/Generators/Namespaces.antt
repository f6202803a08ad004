-- ===== src/Generators/Namespaces.antt =====
-- internal/render/registryv1/generators/namespace.go: the install namespace and the target
-- namespaces.
use Prim.Native.String
use library_olm.Prelude.{
  String, Bool, true, false, not, ◌&&◌, Option, none, some, List, [], ◌∷◌, ◌++◌, get, Result, ok,
  err, ◌>>=◌, wrap_err, contains, is_empty, length, nat_eq, sort_func, compare_strings,
  if◌then◌else◌, ◌==◌,
}
use library_olm.Registry.{
  Kube, Namespace, RegistryV1, own_namespace, single_namespace, multi_namespace, all_namespaces,
  supported_install_modes,
}
use library_olm.Validators.{insert_all}
use library_olm.Generators.Objects.{
  namespace_object, Options, GeneratorContext, RenderError, invalid_self_managed_namespace,
  invalid_install_namespace, unmarshal_template, invalid_target_namespaces, TargetError,
  one_or_more_needed, one_needed, no_all_namespaces, no_own_namespace, unsupported_targets,
}

abbrev pub annotation_suggested_namespace_template : String
annotation_suggested_namespace_template = "operatorframework.io/suggested-namespace-template"

abbrev pub annotation_suggested_namespace : String
annotation_suggested_namespace = "operatorframework.io/suggested-namespace"

-- `newNamespace` and `withNamespaceTypeMeta`: the kind and the version are the type's.
abbrev pub new_namespace : String → Namespace
new_namespace name = record { name = name; labels = []; annotations = [] }

-- `targetNamespaces[0]`, which is read where the set of them has one element
abbrev pub first_target : List String → String
first_target [] = ""
first_target (ns ∷ nss) = ns

-- The switch of `validateTargetNamespaces`, on the supported modes and the set of the targets.
unfoldable pub check_targets :
    List String → List String → String → List String → Result TargetError Unit
check_targets modes set install_namespace target_namespaces =
    if nat_eq (length set) 0
    then (if contains modes multi_namespace then err one_or_more_needed else err one_needed)
    else if nat_eq (length set) 1 && contains set ""
    then (if contains modes all_namespaces
        then ok tt
        else err (no_all_namespaces (sort_func compare_strings modes)))
    else if nat_eq (length set) 1 && not (contains set "")
    then (if first_target target_namespaces == install_namespace
        then (if not (contains modes own_namespace)
            then err (no_own_namespace (sort_func compare_strings modes))
            else ok tt)
        else if contains modes single_namespace
        then ok tt
        else err (unsupported_targets (sort_func compare_strings modes) target_namespaces))
    else if not (contains modes own_namespace) && contains set install_namespace
    then err (no_own_namespace (sort_func compare_strings modes))
    else if contains modes multi_namespace && not (contains set "")
    then ok tt
    else err (unsupported_targets (sort_func compare_strings modes) target_namespaces)

module _ (k : Kube) where
  unfoldable pub validate_target_namespaces :
      RegistryV1 k → String → List String → Result TargetError Unit
  unfolding check_targets insert_all supported_install_modes
  validate_target_namespaces rv1 install_namespace target_namespaces =
      check_targets (supported_install_modes k rv1) (insert_all [] target_namespaces)
        install_namespace target_namespaces

  -- the branches of `deriveNamespace`: the template, the suggested name, the package's name
  abbrev derive : String → Option String → Option String → Result k.YamlError Namespace
  derive package_name (some tmpl) suggested = k.unmarshal_namespace tmpl
  derive package_name none (some name) = ok (new_namespace name)
  derive package_name none none = ok (new_namespace (String.◌++◌ package_name "-system"))

  unfoldable pub derive_namespace : RegistryV1 k → Result (RenderError k) Namespace
  derive_namespace rv1 = wrap_err unmarshal_template (
      derive rv1.package_name (get rv1.csv.annotations annotation_suggested_namespace_template)
        (get rv1.csv.annotations annotation_suggested_namespace))

  -- `validateNamespaceName`, with the error that its callers wrap
  abbrev pub validate_namespace_name :
      (String → List String → RenderError k) → String → Result (RenderError k) Unit
  validate_namespace_name wrap name =
      let errs = k.is_dns1123_label name in if is_empty errs then ok tt else err (wrap name errs)

  -- The namespace, and whether it is emitted.
  unfoldable pub resolve_install_namespace :
      RegistryV1 k → Option String → Result (RenderError k) (Namespace × Bool)
  unfolding derive_namespace
  resolve_install_namespace rv1 (some name) =
      validate_namespace_name invalid_self_managed_namespace name >>= λ _.
      ok (new_namespace name, false)
  resolve_install_namespace rv1 none = derive_namespace rv1 >>= λ ns.
      validate_namespace_name invalid_install_namespace ns.name >>= λ _. ok (ns, true)

  unfoldable pub bundle_namespace_generator :
      RegistryV1 k → Options k → GeneratorContext k → Result (RenderError k) (GeneratorContext k)
  unfolding resolve_install_namespace validate_target_namespaces
  bundle_namespace_generator rv1 opts ctx =
      resolve_install_namespace rv1 opts.self_managed_install_namespace >>= λ resolved.
      wrap_err (invalid_target_namespaces opts.target_namespaces)
        (validate_target_namespaces rv1 resolved.0.name opts.target_namespaces)
      >>= λ _. ok (record {
        install_namespace = resolved.0.name;
        objects =
            if resolved.1 then ctx.objects ++ (namespace_object resolved.0 ∷ []) else ctx.objects;
      })
