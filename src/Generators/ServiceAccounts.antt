-- ===== src/Generators/ServiceAccounts.antt =====
-- The service accounts that are generated are those that the permissions name.
use library_olm.Prelude.{
  String, ◌≡◌, refl, ◌∙◌, Bool, ◌&&◌, ◌||◌, not, List, [], ◌∷◌, ◌++◌, map, ok, contains,
  contains-insert, insert, any, keep, IsDistinct, contains-perm, IsDistinct-insert, IsDistinct-perm,
  ◌==◌, arith, eq_iff, Bool-cases, inl, inr,
}
use mathlib.Core.List.{Perm}
use mathlib.Core.List.Perm
use library_olm.Registry.{Kube, RegistryV1, Permission}
use library_olm.Generators.{
  service_account, Options, GeneratorContext, sa_name_or_default, service_account_names,
  bundle_csv_service_account_generator, add_objects,
}

-- A permission names the service account.
abbrev pub is_named : List Permission → String → Bool
is_named ps name = any (λ (p : Permission). sa_name_or_default p.service_account_name == name) ps

module _ (k : Kube) where
  contains-service_account_names :
      (ps : List Permission) (names : List String) (n : String)
      → contains (service_account_names k ps names) n ≡ (contains names n || is_named ps n)
  unfolding service_account_names
  contains-service_account_names [] names n = ground arith
  contains-service_account_names (p ∷ ps) names n =
      let sa = sa_name_or_default p.service_account_name in
      contains-service_account_names ps (insert names sa) n
      ∙ (ground (arith, contains-insert names sa n))

  IsDistinct-service_account_names :
      (ps : List Permission) (names : List String)
      → IsDistinct names
      → IsDistinct (service_account_names k ps names)
  unfolding service_account_names
  IsDistinct-service_account_names [] names h = h
  IsDistinct-service_account_names (p ∷ ps) names h =
      let sa = sa_name_or_default p.service_account_name in
      IsDistinct-service_account_names ps (insert names sa) (IsDistinct-insert names sa h)

  contains-not_default :
      (ns : List String) (n : String)
      → contains (keep (λ name. not (name == "default")) ns) n
        ≡ (contains ns n && not (n == "default"))
  unfolding contains keep
  contains-not_default [] n = refl
  contains-not_default (m ∷ ns) n =
      ground (arith, contains-not_default ns n, eq_iff m n, eq_iff n "default", eq_iff m "default")

  IsDistinct-not_default :
      (ns : List String) → IsDistinct ns → IsDistinct (keep (λ name. not (name == "default")) ns)
  unfolding keep
  IsDistinct-not_default [] h = tt
  IsDistinct-not_default (m ∷ ns) h = elim (Bool-cases (m == "default")) [
    | inl d ↦ rw d (IsDistinct-not_default ns h.1)
    | inr d ↦ rw d (ground (arith, contains-not_default ns m, h.0), IsDistinct-not_default ns h.1)
  ]

  -- One service account is generated, in the install namespace, for each name that a permission or a
  -- cluster permission has, the empty one standing for "default"; none is generated for "default",
  -- and no two have one name. This holds in whatever order the set of names is listed.
  pub bundle_csv_service_account_generator_lem :
      (unsorted_list : List String → List String)
      → ((ns : List String) → Perm (unsorted_list ns) ns)
      → (rv1 : RegistryV1 k) (opts : Options k) (ctx : GeneratorContext k)
      → (names : List String) × (bundle_csv_service_account_generator k unsorted_list rv1 opts ctx
          ≡ ok (add_objects k ctx (map (λ name. service_account name ctx.install_namespace) names)))
        × IsDistinct names
        × ((n : String)
            → contains names n ≡ (
                is_named (rv1.csv.permissions ++ rv1.csv.cluster_permissions) n
                && not (n == "default")))
  unfolding bundle_csv_service_account_generator
  bundle_csv_service_account_generator_lem unsorted_list listed rv1 opts ctx =
      let ps = rv1.csv.permissions ++ rv1.csv.cluster_permissions in
      let set = service_account_names k ps [] in
      (
        keep (λ name. not (name == "default")) (unsorted_list set),
        refl,
        IsDistinct-not_default (unsorted_list set)
            (IsDistinct-perm (Perm.symm (listed set)) (IsDistinct-service_account_names ps [] tt)),
        λ n.
            contains-not_default (unsorted_list set) n
            ∙ (rw (contains-perm (listed set) n, contains-service_account_names ps [] n)
                (unfold contains in refl)),
      )
