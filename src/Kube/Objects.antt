-- ===== src/Kube/Objects.antt =====
-- The Kubernetes objects that the program builds (k8s.io/api and apimachinery), with the fields that
-- it sets or reads. A nil map or list and an empty one are one value here.
use hackaway_repo.Base.{ℤ, String, Bool, Option, List}

-- A resource.Quantity, as the library holds it; it is compared only by `Client.cmp`.
abbrev pub Quantity : Type 0
Quantity = String

abbrev pub Labels : Type 0
Labels = List (String × String)

pub record OwnerReference : Type 0 where
  pub kind : String
  pub name : String
  pub uid : String
  pub controller : Bool

pub record ObjectMeta : Type 0 where
  pub name : String
  pub namespace : String
  pub labels : Labels
  pub uid : String
  pub resource_version : String
  pub owner_references : List OwnerReference

pub record SecretKeySelector : Type 0 where
  pub name : String
  pub key : String
  pub is_optional : Option Bool

pub record EnvVar : Type 0 where
  pub name : String
  pub value : String
  pub value_from : Option SecretKeySelector

pub record EnvFromSource : Type 0 where
  pub secret_ref : String
  pub is_optional : Option Bool

pub record ContainerPort : Type 0 where
  pub name : String
  pub container_port : ℤ
  pub protocol : String

pub record VolumeMount : Type 0 where
  pub name : String
  pub mount_path : String
  pub read_only : Bool

pub data ProbeHandler : Type 0 where
  exec : List String → ProbeHandler
  http_get : String → ℤ → ProbeHandler

pub record Probe : Type 0 where
  pub handler : ProbeHandler
  pub initial_delay_seconds : ℤ
  pub period_seconds : ℤ

pub record ResourceRequirements : Type 0 where
  pub requests : Option (List (String × Quantity))
  pub limits : Option (List (String × Quantity))

pub record Container : Type 0 where
  pub name : String
  pub image : String
  pub image_pull_policy : String
  pub command : List String
  pub args : List String
  pub env : List EnvVar
  pub env_from : List EnvFromSource
  pub ports : List ContainerPort
  pub readiness_probe : Option Probe
  pub liveness_probe : Option Probe
  pub volume_mounts : List VolumeMount
  pub resources : ResourceRequirements
  pub post_start : Option (List String)

pub data VolumeSource : Type 0 where
  claim : String → Bool → VolumeSource
  empty_dir : VolumeSource
  config_map : String → Option Bool → VolumeSource
  secret : String → Option ℤ → Option Bool → VolumeSource

pub record Volume : Type 0 where
  pub name : String
  pub source : VolumeSource

pub record PodSecurityContext : Type 0 where
  pub run_as_user : Option ℤ
  pub run_as_group : Option ℤ
  pub fs_group : Option ℤ

pub record PodSpec : Type 0 where
  pub security_context : Option PodSecurityContext
  pub restart_policy : String
  pub init_containers : List Container
  pub containers : List Container
  pub volumes : List Volume

pub record Pod : Type 0 where
  pub meta : ObjectMeta
  pub spec : PodSpec
  pub phase : String

pub record DeploymentSpec : Type 0 where
  pub replicas : Option ℤ
  pub selector : Labels
  pub template_labels : Labels
  pub template_spec : PodSpec

pub record DeploymentCondition : Type 0 where
  pub type : String
  pub status : String

pub record Deployment : Type 0 where
  pub meta : ObjectMeta
  pub spec : DeploymentSpec
  pub conditions : List DeploymentCondition
  pub ready_replicas : ℤ
  pub unavailable_replicas : ℤ

pub record ServicePort : Type 0 where
  pub name : String
  pub port : ℤ
  pub target_port : ℤ
  pub protocol : String

pub record ServiceSpec : Type 0 where
  pub selector : Labels
  pub ports : List ServicePort
  pub cluster_ip : String

pub record Service : Type 0 where
  pub meta : ObjectMeta
  pub spec : ServiceSpec

pub record ConfigMap : Type 0 where
  pub meta : ObjectMeta
  pub entries : List (String × String)
  pub binary_data : List (String × String)

pub record Pvc : Type 0 where
  pub meta : ObjectMeta
  pub access_modes : List String
  pub requests : List (String × Quantity)
  pub storage_class_name : Option String
