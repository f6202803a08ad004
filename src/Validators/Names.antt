-- ===== src/Validators/Names.antt =====
-- The checks of the deployments' names and of the package's.
use library_olm.Prelude.{
  String, List, [], ◌∷◌, map, Map, put, sorted_entries, contains, insert, is_empty, sort_func,
  compare_strings, if◌then◌else◌, ◌==◌,
}
use library_olm.Registry.{Kube, RegistryV1, StrategyDeployment}
use library_olm.Validators.Errors.{
  ValidationError, duplicate_deployment, invalid_deployment_name, empty_package_name,
}

-- The loop over the deployments, on their names: the names seen and those seen twice.
unfoldable pub duplicates_loop : List String → List String → List String → List String
duplicates_loop [] seen duplicates = duplicates
duplicates_loop (n ∷ ns) seen duplicates =
    duplicates_loop ns (insert seen n) (if contains seen n then insert duplicates n else duplicates)

module _ (k : Kube) where
  abbrev pub deployment_names : RegistryV1 k → List String
  deployment_names rv1 = map (λ (dep : StrategyDeployment k). dep.name) rv1.csv.deployment_specs

  unfoldable pub check_deployment_spec_uniqueness : RegistryV1 k → List ValidationError
  unfolding duplicates_loop
  check_deployment_spec_uniqueness rv1 =
      map duplicate_deployment
        (sort_func compare_strings (duplicates_loop (deployment_names rv1) [] []))

  unfoldable pub invalid_names : List String → Map (List String) → Map (List String)
  invalid_names [] m = m
  invalid_names (n ∷ ns) m =
      let errs = k.is_dns1123_subdomain n in
      invalid_names ns (if is_empty errs then m else put m n (sort_func compare_strings errs))

  unfoldable pub check_deployment_name_is_dns1123_subdomain : RegistryV1 k → List ValidationError
  unfolding invalid_names
  check_deployment_name_is_dns1123_subdomain rv1 =
      map (λ (e : String × List String). invalid_deployment_name e.0 e.1)
        (sorted_entries (invalid_names (deployment_names rv1) []))

  unfoldable pub check_package_name_not_empty : RegistryV1 k → List ValidationError
  check_package_name_not_empty rv1 = if rv1.package_name == "" then empty_package_name ∷ [] else []
