-- ===== src/Generators/Deployments.antt =====
-- internal/render/registryv1/generators/generators.go: the deployments, and the volumes of their
-- serving certificates.
use Prim.Native.String
use library_olm.Prelude.{
  String, not, none, some, List, [], ◌∷◌, ◌++◌, map, put, Result, ok, contains, insert, keep,
  if◌then◌else◌,
}
use library_olm.Registry.{
  Kube, RegistryV1, StrategyDeployment, Volume, VolumeMount, secret, Container, PodSpec, Deployment,
  CertSecretInfo,
}
use library_olm.Generators.ObjectNames.{merge_maps}
use library_olm.Generators.Permissions.{add_objects}
use library_olm.Generators.Customize.{apply_custom_config, on_pod_spec}
use library_olm.Generators.Objects.{deployment, Options, GeneratorContext, RenderError}

-- `strings.Join(ss, ",")`
unfoldable pub join_commas : List String → String
join_commas [] = ""
join_commas (s ∷ []) = s
join_commas (s ∷ t ∷ ss) = String.◌++◌ s (String.◌++◌ "," (join_commas (t ∷ ss)))

pub record CertVolumeConfig : Type 0 where
  pub name : String
  pub path : String
  pub tls_cert_path : String
  pub tls_key_path : String

abbrev pub cert_volume_configs : List CertVolumeConfig
cert_volume_configs =
    record {
      name = "webhook-cert";
      path = "/tmp/k8s-webhook-server/serving-certs";
      tls_cert_path = "tls.crt";
      tls_key_path = "tls.key";
    }
    ∷ record {
      name = "apiservice-cert";
      path = "/apiserver.local.config/certificates";
      tls_cert_path = "apiserver.crt";
      tls_key_path = "apiserver.key";
    }
    ∷ []

abbrev pub cert_names : List String
cert_names = map (λ (cfg : CertVolumeConfig). cfg.name) cert_volume_configs

abbrev pub protected_paths : List String
protected_paths = map (λ (cfg : CertVolumeConfig). cfg.path) cert_volume_configs

module _ (k : Kube) where
  unfoldable pub generate_deployment :
      RegistryV1 k → Options k → GeneratorContext k → StrategyDeployment k → Deployment k
  unfolding merge_maps join_commas apply_custom_config
  generate_deployment rv1 opts ctx dep =
      let annotations = merge_maps (rv1.csv.annotations ∷ dep.spec.template.annotations ∷ []) [] in
      let annotations' =
        put (put annotations "olm.targetNamespaces" (join_commas opts.target_namespaces))
          "olm.operatorNamespace" ctx.install_namespace in
      apply_custom_config k opts.deployment_config (record {
        name = dep.name;
        namespace = ctx.install_namespace;
        labels = dep.label;
        annotations = [];
        spec = record dep.spec {
          revision_history_limit = some 1;
          template = record dep.spec.template { annotations = annotations' };
        };
      })

  unfoldable pub bundle_csv_deployment_generator :
      RegistryV1 k → Options k → GeneratorContext k → Result (RenderError k) (GeneratorContext k)
  unfolding generate_deployment
  bundle_csv_deployment_generator rv1 opts ctx = ok (
      add_objects k ctx (
        map (λ (dep : StrategyDeployment k). deployment (generate_deployment rv1 opts ctx dep))
          rv1.csv.deployment_specs))

  abbrev pub cert_volume : CertSecretInfo → CertVolumeConfig → Volume k
  cert_volume info cfg = record {
    name = cfg.name;
    source =
        secret info.secret_name (
          (info.certificate_key, cfg.tls_cert_path)
          ∷ (info.private_key_key, cfg.tls_key_path)
          ∷ []);
  }

  abbrev pub cert_volume_mount : CertVolumeConfig → VolumeMount k
  cert_volume_mount cfg = record { name = cfg.name; mount_path = cfg.path; settings = none }

  -- the loops over the mounts of a container and over the containers
  unfoldable pub protected_mounts : List (VolumeMount k) → List String → List String
  protected_mounts [] names = names
  protected_mounts (m ∷ ms) names =
      protected_mounts ms
        (if contains protected_paths m.mount_path then insert names m.name else names)

  unfoldable pub volumes_to_remove : List (Container k) → List String → List String
  unfolding protected_mounts
  volumes_to_remove [] names = names
  volumes_to_remove (c ∷ cs) names = volumes_to_remove cs (protected_mounts c.volume_mounts names)

  abbrev pub fix_mounts : List String → Container k → Container k
  fix_mounts removed c = record c {
    volume_mounts =
        keep (λ (m : VolumeMount k). not (contains removed m.name)) c.volume_mounts
        ++ map cert_volume_mount cert_volume_configs;
  }

  unfoldable pub fix_pod_spec : CertSecretInfo → PodSpec k → PodSpec k
  unfolding volumes_to_remove
  fix_pod_spec info p =
      let removed = volumes_to_remove p.containers cert_names in
      record p {
        volumes =
            keep (λ (vol : Volume k). not (contains removed vol.name)) p.volumes
            ++ map (cert_volume info) cert_volume_configs;
        containers = map (fix_mounts removed) p.containers;
      }

  unfoldable pub ensure_correct_deployment_cert_volumes :
      Deployment k → CertSecretInfo → Deployment k
  unfolding fix_pod_spec
  ensure_correct_deployment_cert_volumes d info = on_pod_spec k (fix_pod_spec info) d
