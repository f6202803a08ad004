-- ===== src/Generators/Customize.antt =====
-- internal/render/registryv1/generators/generators.go: `applyCustomConfigToDeployment` and the
-- functions that it calls.
use library_olm.Prelude.{
  ℕ, zero, suc, String, Bool, true, false, not, ◌&&◌, Option, none, some, List, [], ◌∷◌, ◌++◌, map,
  Map, keys, get, put, any, contains, is_empty, if◌then◌else◌,
}
use library_olm.Registry.{
  Kube, EnvVar, Container, NodeAffinity, PodAffinity, PodAntiAffinity, Affinity, PodSpec,
  Deployment,
}
use library_olm.Generators.Objects.{DeploymentConfig}

-- `xs[i] = x`, for an index in the list
unfoldable pub set_at {ℓ} : {A : Type ℓ} → List A → ℕ → A → List A
set_at [] i x = []
set_at (y ∷ ys) zero x = x ∷ ys
set_at (y ∷ ys) (suc i) x = y ∷ set_at ys i x

-- an element that no other equals is appended
unfoldable pub append_new {ℓ} : {A : Type ℓ} → (A → A → Bool) → List A → List A → List A
append_new same xs [] = xs
append_new same xs (c ∷ cs) =
    append_new same (if any (λ x. same x c) xs then xs else xs ++ (c ∷ [])) cs

-- a value of the map is added where its key is missing
unfoldable pub add_missing {ℓ} : {A : Type ℓ} → Map A → Map A → Map A
add_missing m [] = m
add_missing m (e ∷ es) = add_missing (if contains (keys m) e.0 then m else put m e.0 e.1) es

module _ (k : Kube) where
  abbrev pub on_pod_spec : (PodSpec k → PodSpec k) → Deployment k → Deployment k
  on_pod_spec f d = record d {
    spec = record d.spec { template = record d.spec.template { spec = f d.spec.template.spec } };
  }

  -- the loops over `deployment.Spec.Template.Spec.Containers`
  abbrev pub on_containers : (Container k → Container k) → Deployment k → Deployment k
  on_containers f d =
      on_pod_spec (λ (p : PodSpec k). record p { containers = map f p.containers }) d

  -- the map from names to their last index
  unfoldable pub env_indices : List (EnvVar k) → ℕ → Map ℕ → Map ℕ
  env_indices [] i m = m
  env_indices (e ∷ es) i m = env_indices es (suc i) (put m e.name i)

  abbrev pub set_env : List (EnvVar k) → Option ℕ → EnvVar k → List (EnvVar k)
  set_env env none c = env ++ (c ∷ [])
  set_env env (some i) c = set_at env i c

  unfoldable pub override_env : Map ℕ → List (EnvVar k) → List (EnvVar k) → List (EnvVar k)
  unfolding set_at
  override_env indices env [] = env
  override_env indices env (c ∷ cs) = override_env indices (set_env env (get indices c.name) c) cs

  -- `env` of a container, once the configuration is applied
  unfoldable pub apply_env : List (EnvVar k) → List (EnvVar k) → List (EnvVar k)
  unfolding env_indices override_env
  apply_env env config = override_env (env_indices env 0 []) env config

  unfoldable pub apply_environment_config : Deployment k → DeploymentConfig k → Deployment k
  unfolding apply_env
  apply_environment_config d config =
      if is_empty config.env
      then d
      else on_containers (λ (c : Container k). record c { env = apply_env c.env config.env }) d

  unfoldable pub apply_environment_from_config : Deployment k → DeploymentConfig k → Deployment k
  unfolding append_new
  apply_environment_from_config d config =
      if is_empty config.env_from
      then d
      else on_containers
          (λ (c : Container k). record c {
            env_from = append_new k.env_from_equal c.env_from config.env_from;
          })
          d

  unfoldable pub apply_volume_config : Deployment k → DeploymentConfig k → Deployment k
  apply_volume_config d config =
      if is_empty config.volumes
      then d
      else on_pod_spec (λ (p : PodSpec k). record p { volumes = p.volumes ++ config.volumes }) d

  unfoldable pub apply_volume_mount_config : Deployment k → DeploymentConfig k → Deployment k
  apply_volume_mount_config d config =
      if is_empty config.volume_mounts
      then d
      else on_containers
          (λ (c : Container k). record c {
            volume_mounts = c.volume_mounts ++ config.volume_mounts;
          })
          d

  unfoldable pub apply_tolerations_config : Deployment k → DeploymentConfig k → Deployment k
  unfolding append_new
  apply_tolerations_config d config =
      if is_empty config.tolerations
      then d
      else on_pod_spec
          (λ (p : PodSpec k). record p {
            tolerations = append_new k.toleration_equal p.tolerations config.tolerations;
          })
          d

  abbrev pub apply_resources : Option k.Resources → Deployment k → Deployment k
  apply_resources none d = d
  apply_resources (some resources) d =
      on_containers (λ (c : Container k). record c { resources = resources }) d

  unfoldable pub apply_resources_config : Deployment k → DeploymentConfig k → Deployment k
  apply_resources_config d config = apply_resources config.resources d

  abbrev pub apply_node_selector : Option (Map String) → Deployment k → Deployment k
  apply_node_selector none d = d
  apply_node_selector (some selector) d =
      on_pod_spec (λ (p : PodSpec k). record p { node_selector = selector }) d

  unfoldable pub apply_node_selector_config : Deployment k → DeploymentConfig k → Deployment k
  apply_node_selector_config d config = apply_node_selector config.node_selector d

  abbrev pub is_nil_or_empty {ℓ} : {A : Type ℓ} → Option (List A) → Bool
  is_nil_or_empty none = true
  is_nil_or_empty (some xs) = is_empty xs

  abbrev pub is_node_affinity_empty : Option (NodeAffinity k) → Bool
  is_node_affinity_empty none = true
  is_node_affinity_empty (some na) = is_nil_or_empty na.required && is_empty na.preferred

  abbrev pub is_pod_affinity_empty : Option (PodAffinity k) → Bool
  is_pod_affinity_empty none = true
  is_pod_affinity_empty (some pa) = is_empty pa.required && is_empty pa.preferred

  abbrev pub is_pod_anti_affinity_empty : Option (PodAntiAffinity k) → Bool
  is_pod_anti_affinity_empty none = true
  is_pod_anti_affinity_empty (some paa) = is_empty paa.required && is_empty paa.preferred

  abbrev pub is_affinity_empty : Affinity k → Bool
  is_affinity_empty a =
      is_node_affinity_empty a.node_affinity
      && (is_pod_affinity_empty a.pod_affinity && is_pod_anti_affinity_empty a.pod_anti_affinity)

  -- A part of the affinity: nil leaves it, empty erases it, and anything else replaces it.
  abbrev pub override_part {ℓ} : {A : Type ℓ} → (Option A → Bool) → Option A → Option A → Option A
  override_part is_part_empty existing none = existing
  override_part is_part_empty existing (some part) =
      if is_part_empty (some part) then none else some part

  abbrev pub or_no_parts : Option (Affinity k) → Affinity k
  or_no_parts none = record { node_affinity = none; pod_affinity = none; pod_anti_affinity = none }
  or_no_parts (some a) = a

  abbrev pub has_no_parts : Affinity k → Bool
  has_no_parts a =
      not (is_set a.node_affinity)
      && (not (is_set a.pod_affinity) && not (is_set a.pod_anti_affinity))
    where
      is_set : {A : Type 0} → Option A → Bool
      is_set none = false
      is_set (some a) = true

  -- the pod's affinity, once the configuration's is applied
  unfoldable pub apply_affinity : Option (Affinity k) → Option (Affinity k) → Option (Affinity k)
  apply_affinity existing none = existing
  apply_affinity existing (some a) =
      if has_no_parts a
      then none
      else let old : Affinity k = or_no_parts existing in
        let new : Affinity k = record {
          node_affinity = override_part is_node_affinity_empty old.node_affinity a.node_affinity;
          pod_affinity = override_part is_pod_affinity_empty old.pod_affinity a.pod_affinity;
          pod_anti_affinity =
              override_part is_pod_anti_affinity_empty old.pod_anti_affinity a.pod_anti_affinity;
        } in
        if is_affinity_empty new then none else some new

  unfoldable pub apply_affinity_config : Deployment k → DeploymentConfig k → Deployment k
  unfolding apply_affinity
  apply_affinity_config d config =
      on_pod_spec
        (λ (p : PodSpec k). record p { affinity = apply_affinity p.affinity config.affinity }) d

  unfoldable pub apply_annotations_config : Deployment k → DeploymentConfig k → Deployment k
  unfolding add_missing
  apply_annotations_config d config = record d {
    annotations = add_missing d.annotations config.annotations;
    spec = record d.spec {
      template = record d.spec.template {
        annotations = add_missing d.spec.template.annotations config.annotations;
      };
    };
  }

  -- a nil configuration changes nothing
  unfoldable pub apply_custom_config : Option (DeploymentConfig k) → Deployment k → Deployment k
  unfolding apply_environment_config apply_environment_from_config apply_volume_config
      apply_volume_mount_config apply_tolerations_config apply_resources_config
      apply_node_selector_config apply_affinity_config apply_annotations_config
  apply_custom_config none d = d
  apply_custom_config (some config) d =
      let d1 = apply_environment_config d config in
      let d2 = apply_environment_from_config d1 config in
      let d3 = apply_volume_config d2 config in
      let d4 = apply_volume_mount_config d3 config in
      let d5 = apply_tolerations_config d4 config in
      let d6 = apply_resources_config d5 config in
      let d7 = apply_node_selector_config d6 config in
      let d8 = apply_affinity_config d7 config in apply_annotations_config d8 config
