-- ===== src/Kube/Build.antt =====
-- Objects with the fields that the controllers leave empty.
use hackaway_repo.Base.{ℤ, pos, int32, String, Bool, none, some, List, []}
use hackaway_repo.Kube.Objects.{
  Labels, ObjectMeta, EnvVar, Container, ContainerPort, Volume, config_map, empty_dir, VolumeMount,
  PodSpec, Deployment, Service, ServicePort, ConfigMap, ResourceRequirements,
}

-- metav1.ObjectMeta{Name: …, Namespace: …, Labels: …}
abbrev pub object_meta : String → String → Labels → ObjectMeta
object_meta name ns labels = record {
  name = name;
  namespace = ns;
  labels = labels;
  uid = "";
  resource_version = "";
  owner_references = [];
}

abbrev pub no_resources : ResourceRequirements
no_resources = record { requests = none; limits = none }

abbrev pub mount : String → String → Bool → VolumeMount
mount name path read_only = record { name = name; mount_path = path; read_only = read_only }

abbrev pub plain_env : String → String → EnvVar
plain_env name value = record { name = name; value = value; value_from = none }

abbrev pub config_volume : String → String → Volume
config_volume name source = record { name = name; source = config_map source none }

abbrev pub scratch_volume : String → Volume
scratch_volume name = record { name = name; source = empty_dir }

-- int32(port), over TCP
abbrev pub container_port : String → ℤ → ContainerPort
container_port name port = record { name = name; container_port = int32 port; protocol = "TCP" }

-- int32(port) and intstr.FromInt(port), over TCP
abbrev pub service_port : String → ℤ → ServicePort
service_port name port = record {
  name = name;
  port = int32 port;
  target_port = int32 port;
  protocol = "TCP";
}

-- A container with a name and an image.
abbrev pub plain_container : String → String → Container
plain_container name image = record {
  name = name;
  image = image;
  image_pull_policy = "";
  command = [];
  args = [];
  env = [];
  env_from = [];
  ports = [];
  readiness_probe = none;
  liveness_probe = none;
  volume_mounts = [];
  resources = no_resources;
  post_start = none;
}

abbrev pub pod_spec : List Container → List Container → List Volume → PodSpec
pod_spec init_containers containers volumes = record {
  security_context = none;
  restart_policy = "";
  init_containers = init_containers;
  containers = containers;
  volumes = volumes;
}

-- A deployment of one replica, whose labels select its pods.
abbrev pub single_deployment : String → String → Labels → PodSpec → Deployment
single_deployment name ns labels spec = record {
  meta = object_meta name ns labels;
  spec = record {
    replicas = some (pos 1);
    selector = labels;
    template_labels = labels;
    template_spec = spec;
  };
  conditions = [];
  ready_replicas = pos 0;
  unavailable_replicas = pos 0;
}

-- A service in front of the pods with its labels.
abbrev pub plain_service : String → String → Labels → List ServicePort → Service
plain_service name ns labels ports = record {
  meta = object_meta name ns labels;
  spec = record { selector = labels; ports = ports; cluster_ip = "" };
}

abbrev pub text_config_map : String → String → Labels → List (String × String) → ConfigMap
text_config_map name ns labels entries = record {
  meta = object_meta name ns labels;
  entries = entries;
  binary_data = [];
}
