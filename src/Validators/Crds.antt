-- ===== src/Validators/Crds.antt =====
-- The checks of the custom resource definitions and of the other objects.
use library_olm.Prelude.{
  String, List, [], ◌∷◌, ◌++◌, map, contains, insert, sort_func, compare_strings, if◌then◌else◌,
}
use library_olm.Registry.{Kube, RegistryV1, Crd, Unstructured}
use library_olm.Validators.Errors.{ValidationError, missing_crd, duplicate_crd, unsupported_object}
use library_olm.Validators.Names.{duplicates_loop}

-- the loop that inserts each name in a set
unfoldable pub insert_all : List String → List String → List String
insert_all set [] = set
insert_all set (n ∷ ns) = insert_all (insert set n) ns

-- the loop over the owned definitions
unfoldable pub missing_loop : List String → List String → List String → List String
missing_loop crds_names [] missing = missing
missing_loop crds_names (n ∷ ns) missing =
    missing_loop crds_names ns (if contains crds_names n then missing else insert missing n)

module _ (k : Kube) where
  abbrev pub crd_names : RegistryV1 k → List String
  crd_names rv1 = map (λ (crd : Crd k). crd.name) rv1.crds

  unfoldable pub check_owned_crd_existence : RegistryV1 k → List ValidationError
  unfolding insert_all missing_loop
  check_owned_crd_existence rv1 =
      map missing_crd
        (sort_func compare_strings (missing_loop (insert_all [] (crd_names rv1)) rv1.csv.owned []))

  unfoldable pub check_crd_resource_uniqueness : RegistryV1 k → List ValidationError
  unfolding duplicates_loop
  check_crd_resource_uniqueness rv1 =
      map duplicate_crd (sort_func compare_strings (duplicates_loop (crd_names rv1) [] []))

  -- the loop of `CheckObjectSupport`
  unfoldable pub unsupported_objects : List (Unstructured k) → List ValidationError
  unsupported_objects [] = []
  unsupported_objects (obj ∷ objs) =
      (if (k.is_supported obj.kind).0 then [] else unsupported_object obj.name obj.kind ∷ [])
      ++ unsupported_objects objs

  unfoldable pub check_object_support : RegistryV1 k → List ValidationError
  unfolding unsupported_objects
  check_object_support rv1 = unsupported_objects rv1.others
