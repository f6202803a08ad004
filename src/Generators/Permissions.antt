-- ===== src/Generators/Permissions.antt =====
-- internal/render/registryv1/generators/generators.go: roles, bindings and service accounts.
use Prim.Native.String
use library_olm.Prelude.{
  String, Bool, false, Option, none, some, List, [], ◌∷◌, ◌++◌, map, Result, ok, err, ◌>>=◌, insert,
  keep, not, if◌then◌else◌, ◌==◌,
}
use library_olm.Registry.{Kube, RegistryV1, Permission, PolicyRule}
use library_olm.Generators.Objects.{
  Object, service_account, role, role_binding, cluster_role, cluster_role_binding, Subject, RoleRef,
  Options, GeneratorContext, RenderError, panicked,
}

abbrev pub sa_name_or_default : String → String
sa_name_or_default sa_name = if sa_name == "" then "default" else sa_name

-- `len(targets) == 1 && targets[0] == ""`
abbrev pub is_all_namespaces_mode : List String → Bool
is_all_namespaces_mode (ns ∷ []) = ns == ""
is_all_namespaces_mode _ = false

abbrev pub rbac_group : String
rbac_group = "rbac.authorization.k8s.io"

abbrev pub sa_subject : String → String → Subject
sa_subject install_namespace sa_name = record {
  kind = "ServiceAccount";
  namespace = install_namespace;
  name = sa_name;
}

abbrev pub role_ref : String → String → RoleRef
role_ref kind name = record { api_group = rbac_group; kind = kind; name = name }

-- the rule on namespaces that promotion adds
abbrev pub namespaces_rule : PolicyRule
namespaces_rule = record {
  verbs = "get" ∷ "list" ∷ "watch" ∷ [];
  api_groups = "" ∷ [];
  resources = "namespaces" ∷ [];
  resource_names = [];
  non_resource_urls = [];
}

unfoldable pub promote : Permission → Permission
promote p = record p { rules = p.rules ++ (namespaces_rule ∷ []) }

module _ (k : Kube) where
  -- `opts.UniqueNameGenerator(fmt.Sprintf("%s-%s", …), permission)`; a call of a nil generator or a
  -- panic of it is an error
  unfoldable pub unique_name : Options k → String → Permission → Result (RenderError k) String
  unique_name opts csv_name p =
      named opts.unique_name_generator
        (String.◌++◌ csv_name (String.◌++◌ "-" (sa_name_or_default p.service_account_name)))
    where
      or_panic : Option String → Result (RenderError k) String
      or_panic none = err panicked
      or_panic (some name) = ok name

      named : Option (String → Permission → Option String) → String → Result (RenderError k) String
      named none base = err panicked
      named (some generate) base = or_panic (generate base p)

  abbrev pub role_objects : GeneratorContext k → String → Permission → String → List (Object k)
  role_objects ctx ns p name =
      role name ns p.rules
      ∷ role_binding name ns
          (sa_subject ctx.install_namespace (sa_name_or_default p.service_account_name) ∷ [])
          (role_ref "Role" name)
      ∷ []

  -- the inner loop, over the permissions
  unfoldable pub roles_in :
      RegistryV1 k
      → Options k
      → GeneratorContext k
      → String
      → List Permission
      → Result (RenderError k) (List (Object k))
  unfolding unique_name
  roles_in rv1 opts ctx ns [] = ok []
  roles_in rv1 opts ctx ns (p ∷ ps) =
      let rest = roles_in rv1 opts ctx ns ps in
      unique_name opts rv1.csv.name p >>= λ name.
      rest >>= λ objs. ok (role_objects ctx ns p name ++ objs)

  -- the outer loop, over the target namespaces
  unfoldable pub roles_for :
      RegistryV1 k
      → Options k
      → GeneratorContext k
      → List String
      → Result (RenderError k) (List (Object k))
  unfolding roles_in
  roles_for rv1 opts ctx [] = ok []
  roles_for rv1 opts ctx (ns ∷ nss) =
      let rest = roles_for rv1 opts ctx nss in
      roles_in rv1 opts ctx ns rv1.csv.permissions >>= λ objs. rest >>= λ more. ok (objs ++ more)

  abbrev pub add_objects : GeneratorContext k → List (Object k) → GeneratorContext k
  add_objects ctx objs = record ctx { objects = ctx.objects ++ objs }

  unfoldable pub bundle_csv_permissions_generator :
      RegistryV1 k → Options k → GeneratorContext k → Result (RenderError k) (GeneratorContext k)
  unfolding roles_for
  bundle_csv_permissions_generator rv1 opts ctx =
      if is_all_namespaces_mode opts.target_namespaces
      then ok ctx
      else roles_for rv1 opts ctx opts.target_namespaces >>= λ objs. ok (add_objects ctx objs)

  abbrev pub cluster_role_objects : GeneratorContext k → Permission → String → List (Object k)
  cluster_role_objects ctx p name =
      cluster_role name p.rules
      ∷ cluster_role_binding name
          (sa_subject ctx.install_namespace (sa_name_or_default p.service_account_name) ∷ [])
          (role_ref "ClusterRole" name)
      ∷ []

  unfoldable pub cluster_roles :
      RegistryV1 k
      → Options k
      → GeneratorContext k
      → List Permission
      → Result (RenderError k) (List (Object k))
  unfolding unique_name
  cluster_roles rv1 opts ctx [] = ok []
  cluster_roles rv1 opts ctx (p ∷ ps) =
      let rest = cluster_roles rv1 opts ctx ps in
      unique_name opts rv1.csv.name p >>= λ name.
      rest >>= λ objs. ok (cluster_role_objects ctx p name ++ objs)

  -- The cluster permissions, with the permissions promoted to them for all namespaces.
  unfoldable pub effective_cluster_permissions : RegistryV1 k → Options k → List Permission
  effective_cluster_permissions rv1 opts =
      if is_all_namespaces_mode opts.target_namespaces
      then rv1.csv.cluster_permissions ++ map promote rv1.csv.permissions
      else rv1.csv.cluster_permissions

  unfoldable pub bundle_csv_cluster_permissions_generator :
      RegistryV1 k → Options k → GeneratorContext k → Result (RenderError k) (GeneratorContext k)
  unfolding cluster_roles effective_cluster_permissions
  bundle_csv_cluster_permissions_generator rv1 opts ctx =
      cluster_roles rv1 opts ctx (effective_cluster_permissions rv1 opts) >>= λ objs.
      ok (add_objects ctx objs)

  -- the loop over all permissions, into a set
  unfoldable pub service_account_names : List Permission → List String → List String
  service_account_names [] names = names
  service_account_names (p ∷ ps) names =
      service_account_names ps (insert names (sa_name_or_default p.service_account_name))

  -- `unsorted_list` lists a set, in an order that Go does not fix.
  unfoldable pub bundle_csv_service_account_generator :
      (List String → List String)
      → RegistryV1 k
      → Options k
      → GeneratorContext k
      → Result (RenderError k) (GeneratorContext k)
  unfolding service_account_names
  bundle_csv_service_account_generator unsorted_list rv1 opts ctx = ok (
      add_objects ctx (
        map (λ name. service_account name ctx.install_namespace)
          (keep (λ name. not (name == "default"))
            (unsorted_list
              (service_account_names (rv1.csv.permissions ++ rv1.csv.cluster_permissions) [])))))
