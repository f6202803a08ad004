-- ===== src/Validators/NameChecks.antt =====
-- The name checks report nothing exactly where the names are distinct, or valid.
use library_olm.Prelude.{
  String, ◌≡◌, refl, ◌∙◌, true, false, ◌&&◌, ◌||◌, not, List, [], ◌∷◌, Map, put, sorted_entries,
  contains, contains-insert, insert, is_empty, is_empty-map, is_empty-sort_func, all-congr, all,
  distinct, sort_func, compare_strings, ◌==◌, arith, eq_iff, Bool-cases, inl, inr,
}
use library_olm.Registry.{Kube, RegistryV1, Unstructured}
use library_olm.Validators.Errors.{duplicate_deployment, duplicate_crd, missing_crd}
use library_olm.Validators.Names.{
  duplicates_loop, deployment_names, check_deployment_spec_uniqueness, invalid_names,
  check_deployment_name_is_dns1123_subdomain, check_package_name_not_empty,
}
use library_olm.Validators.Crds.{
  insert_all, missing_loop, crd_names, check_owned_crd_existence, check_crd_resource_uniqueness,
  unsupported_objects, check_object_support,
}

pub is_empty-insert : (xs : List String) (a : String) → is_empty (insert xs a) ≡ false
unfolding insert contains
is_empty-insert [] a = refl
is_empty-insert (x ∷ xs) a = ground arith

pub is_empty-put {ℓ} : {A : Type ℓ} (m : Map A) (k : String) (a : A) → is_empty (put m k a) ≡ false
unfolding put
is_empty-put [] k a = refl
is_empty-put (e ∷ m) k a = ground arith

-- No name is seen, and none is behind it again.
all_fresh :
    (ns seen : List String) (n : String)
    → all (λ a. not (contains (insert seen n) a)) ns
      ≡ (not (contains ns n) && all (λ a. not (contains seen a)) ns)
unfolding contains
all_fresh [] seen n = refl
all_fresh (a ∷ ns) seen n =
    ground (arith, contains-insert seen n a, all_fresh ns seen n, eq_iff n a, eq_iff a n)

pub is_empty-duplicates_loop :
    (ns seen dups : List String)
    → is_empty (duplicates_loop ns seen dups)
      ≡ (is_empty dups && (distinct ns && all (λ a. not (contains seen a)) ns))
unfolding duplicates_loop
is_empty-duplicates_loop [] seen dups = ground arith
is_empty-duplicates_loop (n ∷ ns) seen dups = elim (Bool-cases (contains seen n)) [
  | inl old ↦ rw old (
      is_empty-duplicates_loop ns (insert seen n) (insert dups n)
      ∙ (ground (arith, is_empty-insert dups n)))
  | inr new ↦
      rw new
        (is_empty-duplicates_loop ns (insert seen n) dups ∙ (ground (arith, all_fresh ns seen n)))
]

pub all-true {ℓ} : {A : Type ℓ} (xs : List A) → all (λ x. true) xs ≡ true
all-true [] = refl
all-true (x ∷ xs) = all-true xs

all_fresh_nil : (ns : List String) → all (λ a. not (contains [] a)) ns ≡ true
unfolding contains
all_fresh_nil ns = all-true ns

pub contains-insert_all :
    (set ns : List String) (a : String)
    → contains (insert_all set ns) a ≡ (contains set a || contains ns a)
unfolding insert_all
contains-insert_all set [] a = unfold contains in ground arith
contains-insert_all set (n ∷ ns) a =
    contains-insert_all (insert set n) ns a
    ∙ (rw (contains-insert set n a) (unfold contains in ground arith))

-- A set holds what was inserted.
pub contains-set : (ns : List String) (a : String) → contains (insert_all [] ns) a ≡ contains ns a
unfolding contains
contains-set ns a = contains-insert_all [] ns a

is_empty-missing_loop :
    (crds ns missing : List String)
    → is_empty (missing_loop crds ns missing) ≡ (is_empty missing && all (λ n. contains crds n) ns)
unfolding missing_loop
is_empty-missing_loop crds [] missing = ground arith
is_empty-missing_loop crds (n ∷ ns) missing = elim (Bool-cases (contains crds n)) [
  | inl found ↦ rw found (is_empty-missing_loop crds ns missing)
  | inr lost ↦ rw lost (
      is_empty-missing_loop crds ns (insert missing n)
      ∙ (ground (arith, is_empty-insert missing n)))
]

module _ (k : Kube) where
  is_empty-invalid_names :
      (ns : List String) (m : Map (List String))
      → is_empty (invalid_names k ns m)
        ≡ (is_empty m && all (λ n. is_empty (k.is_dns1123_subdomain n)) ns)
  unfolding invalid_names
  is_empty-invalid_names [] m = ground arith
  is_empty-invalid_names (n ∷ ns) m = elim (Bool-cases (is_empty (k.is_dns1123_subdomain n))) [
    | inl good ↦ rw good (is_empty-invalid_names ns m)
    | inr bad ↦
        let sorted = sort_func compare_strings (k.is_dns1123_subdomain n) in
        rw bad
          (is_empty-invalid_names ns (put m n sorted) ∙ (ground (arith, is_empty-put m n sorted)))
  ]

  is_empty-unsupported_objects :
      (objs : List (Unstructured k))
      → is_empty (unsupported_objects k objs)
        ≡ all (λ (obj : Unstructured k). (k.is_supported obj.kind).0) objs
  unfolding unsupported_objects
  is_empty-unsupported_objects [] = refl
  is_empty-unsupported_objects (obj ∷ objs) = ground (arith, is_empty-unsupported_objects objs)

  module _ (rv1 : RegistryV1 k) where
    pub check_deployment_spec_uniqueness_lem :
        is_empty (check_deployment_spec_uniqueness k rv1) ≡ distinct (deployment_names k rv1)
    unfolding check_deployment_spec_uniqueness
    check_deployment_spec_uniqueness_lem =
        rw
          (
            is_empty-map duplicate_deployment
                (sort_func compare_strings (duplicates_loop (deployment_names k rv1) [] [])),
            is_empty-sort_func compare_strings (duplicates_loop (deployment_names k rv1) [] []),
            is_empty-duplicates_loop (deployment_names k rv1) [] [],
          )
          (ground (arith, all_fresh_nil (deployment_names k rv1)))

    pub check_crd_resource_uniqueness_lem :
        is_empty (check_crd_resource_uniqueness k rv1) ≡ distinct (crd_names k rv1)
    unfolding check_crd_resource_uniqueness
    check_crd_resource_uniqueness_lem =
        rw
          (
            is_empty-map duplicate_crd
                (sort_func compare_strings (duplicates_loop (crd_names k rv1) [] [])),
            is_empty-sort_func compare_strings (duplicates_loop (crd_names k rv1) [] []),
            is_empty-duplicates_loop (crd_names k rv1) [] [],
          )
          (ground (arith, all_fresh_nil (crd_names k rv1)))

    pub check_deployment_name_lem :
        is_empty (check_deployment_name_is_dns1123_subdomain k rv1)
        ≡ all (λ n. is_empty (k.is_dns1123_subdomain n)) (deployment_names k rv1)
    unfolding check_deployment_name_is_dns1123_subdomain sorted_entries
    check_deployment_name_lem =
        is_empty-map _ (sorted_entries (invalid_names k (deployment_names k rv1) []))
        ∙ is_empty-sort_func _ (invalid_names k (deployment_names k rv1) [])
        ∙ is_empty-invalid_names (deployment_names k rv1) []

    pub check_owned_crd_existence_lem :
        is_empty (check_owned_crd_existence k rv1)
        ≡ all (λ n. contains (crd_names k rv1) n) rv1.csv.owned
    unfolding check_owned_crd_existence
    check_owned_crd_existence_lem =
        let crds = insert_all [] (crd_names k rv1) in
        is_empty-map missing_crd (sort_func compare_strings (missing_loop crds rv1.csv.owned []))
        ∙ is_empty-sort_func compare_strings (missing_loop crds rv1.csv.owned [])
        ∙ is_empty-missing_loop crds rv1.csv.owned []
        ∙ all-congr _ _ rv1.csv.owned (λ n. contains-set (crd_names k rv1) n)

    pub check_package_name_lem :
        is_empty (check_package_name_not_empty k rv1) ≡ not (rv1.package_name == "")
    unfolding check_package_name_not_empty
    check_package_name_lem = ground arith

    pub check_object_support_lem :
        is_empty (check_object_support k rv1)
        ≡ all (λ (obj : Unstructured k). (k.is_supported obj.kind).0) rv1.others
    unfolding check_object_support
    check_object_support_lem = is_empty-unsupported_objects rv1.others
