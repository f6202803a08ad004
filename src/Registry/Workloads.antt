-- ===== src/Registry/Workloads.antt =====
-- The parts of a Deployment (k8s.io/api/apps/v1 and core/v1) that bundle/registry/v1 reads or writes.
use library_olm.Prelude.{ℕ, String, Option, List, Map}
use library_olm.Registry.Packages.{Kube}

pub record CertSecretInfo : Type 0 where
  pub secret_name : String
  pub certificate_key : String
  pub private_key_key : String

module _ (k : Kube) where
  pub record EnvVar : Type 0 where
    pub name : String
    pub value : k.EnvSource

  pub record VolumeMount : Type 0 where
    pub name : String
    pub mount_path : String
    -- none for a mount with no other field set
    pub settings : Option k.MountSettings

  -- The items of a secret's volume: a key and the path that it is projected to.
  pub data Source : Type 0 where
    secret : String → List (String × String) → Source
    other : k.VolumeSource → Source

  pub record Volume : Type 0 where
    pub name : String
    pub source : Source

  pub record Container : Type 0 where
    pub env : List EnvVar
    pub env_from : List k.EnvFromSource
    pub volume_mounts : List VolumeMount
    pub resources : k.Resources
    pub settings : k.ContainerSettings

  -- `required` is nil or a list of terms.
  pub record NodeAffinity : Type 0 where
    pub required : Option (List k.NodeSelectorTerm)
    pub preferred : List k.PreferredTerm

  pub record PodAffinity : Type 0 where
    pub required : List k.PodTerm
    pub preferred : List k.WeightedPodTerm

  pub record PodAntiAffinity : Type 0 where
    pub required : List k.PodTerm
    pub preferred : List k.WeightedPodTerm

  pub record Affinity : Type 0 where
    pub node_affinity : Option NodeAffinity
    pub pod_affinity : Option PodAffinity
    pub pod_anti_affinity : Option PodAntiAffinity

  pub record PodSpec : Type 0 where
    pub containers : List Container
    pub volumes : List Volume
    pub tolerations : List k.Toleration
    pub node_selector : Map String
    pub affinity : Option Affinity
    pub settings : k.PodSettings

  pub record PodTemplate : Type 0 where
    pub annotations : Map String
    pub spec : PodSpec

  pub record DeploymentSpec : Type 0 where
    pub template : PodTemplate
    pub revision_history_limit : Option ℕ
    -- `Selector.MatchLabels`, none without a selector
    pub match_labels : Option (Map String)
    pub settings : k.DeploymentSettings

  pub record Deployment : Type 0 where
    pub name : String
    pub namespace : String
    pub labels : Map String
    pub annotations : Map String
    pub spec : DeploymentSpec
