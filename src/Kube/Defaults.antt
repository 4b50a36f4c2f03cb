-- ===== src/Kube/Defaults.antt =====
-- The defaults that the API server fills in where a deployment says nothing (the reference of the
-- Kubernetes API, apps/v1 and core/v1), for the fields of the model.
use hackaway_repo.Base.{
  ◌≡◌, ap, ℤ, pos, String, Bool, false, Option, none, some, List, [], ◌∷◌, ◌++◌, map, ◌==◌, ◌||◌,
  if◌then◌else◌, is_zero,
}
use hackaway_repo.Kube.Objects.{
  Quantity, ContainerPort, ProbeHandler, exec, http_get, Probe, ResourceRequirements, Container,
  VolumeSource, claim, empty_dir, config_map, secret, Volume, PodSpec, DeploymentSpec,
}

abbrev or_text : String → String → String
or_text d s = if s == "" then d else s

abbrev pub or_else {ℓ} : {A : Type ℓ} → A → Option A → Option A
or_else d none = some d
or_else d (some a) = some a

abbrev port_filled : ContainerPort → ContainerPort
port_filled p = record p { protocol = or_text "TCP" p.protocol }

abbrev handler_filled : ProbeHandler → ProbeHandler
handler_filled (exec words) = exec words
handler_filled (http_get path port) = http_get (or_text "/" path) port

-- Ten seconds where the period is zero.
abbrev period_filled : ℤ → ℤ
period_filled n = if is_zero n then pos 10 else n

abbrev probe_filled : Probe → Probe
probe_filled p = record p {
  handler = handler_filled p.handler;
  period_seconds = period_filled p.period_seconds;
}

-- What is limited and not requested is requested in the size of its limit: the names come in the
-- order of the requests and then of the limits.
abbrev asks : String → List (String × Quantity) → Bool
asks k [] = false
asks k ((j, q) ∷ qs) = j == k || asks k qs

abbrev requests_filled :
    List (String × Quantity) → List (String × Quantity) → List (String × Quantity)
requests_filled requests [] = []
requests_filled requests ((k, q) ∷ limits) =
    let rest = requests_filled requests limits in if asks k requests then rest else (k, q) ∷ rest

abbrev filled {ℓ} : {A : Type ℓ} → (A → A) → Option A → Option A
filled f none = none
filled f (some a) = some (f a)

abbrev listed {ℓ} : {A : Type ℓ} → Option (List A) → List A
listed none = []
listed (some xs) = xs

abbrev resources_filled : ResourceRequirements → ResourceRequirements
resources_filled r = record {
  requests = some (listed r.requests ++ requests_filled (listed r.requests) (listed r.limits));
  limits = some (listed r.limits);
}

-- The policy for pulling an image follows from its tag; it is left out.
abbrev container_filled : Container → Container
container_filled q = record q {
  image_pull_policy = "";
  ports = map port_filled q.ports;
  readiness_probe = filled probe_filled q.readiness_probe;
  liveness_probe = filled probe_filled q.liveness_probe;
  resources = resources_filled q.resources;
}

-- The mode of the files of a secret is 0644.
abbrev source_filled : VolumeSource → VolumeSource
source_filled (claim name read_only) = claim name read_only
source_filled empty_dir = empty_dir
source_filled (config_map name is_optional) = config_map name is_optional
source_filled (secret name mode is_optional) = secret name (or_else (pos 420) mode) is_optional

abbrev volume_filled : Volume → Volume
volume_filled v = record v { source = source_filled v.source }

abbrev pod_filled : PodSpec → PodSpec
pod_filled p = record p {
  security_context =
      or_else (record { run_as_user = none; run_as_group = none; fs_group = none })
        p.security_context;
  restart_policy = or_text "Always" p.restart_policy;
  init_containers = map container_filled p.init_containers;
  containers = map container_filled p.containers;
  volumes = map volume_filled p.volumes;
}

-- The spec of a deployment with its defaults.
unfoldable pub defaulted : DeploymentSpec → DeploymentSpec
defaulted d = record d {
  replicas = or_else (pos 1) d.replicas;
  template_spec = pod_filled d.template_spec;
}

pub defaulted-replicas :
    (a b : DeploymentSpec)
    → defaulted a ≡ defaulted b
    → or_else (pos 1) a.replicas ≡ or_else (pos 1) b.replicas
unfolding defaulted
defaulted-replicas a b same = ap (λ d. d.replicas) same
