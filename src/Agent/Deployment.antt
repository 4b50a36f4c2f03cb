-- ===== src/Agent/Deployment.antt =====
-- internal/controller/clawagent_controller.go: the deployment and the service of an agent.
pub mod WellFormed
pub mod Peers
use hackaway_repo.Base.{
  ℤ, pos, int32, String, true, false, Option, none, some, List, [], ◌∷◌, ◌++◌, ◌==◌, ◌&&◌, not,
  append, join, if◌then◌else◌,
}
use hackaway_repo.Kube.Objects.{
  EnvVar, Container, ContainerPort, Volume, VolumeMount, Probe, exec, http_get, claim, empty_dir,
  config_map, secret, PodSecurityContext, Deployment, Service, ServicePort,
}
use hackaway_repo.V1.Agent.{
  ClawAgent, ClawAgentSpec, A2ASpec, resolved_port, workspace_mode_persistent,
}
use hackaway_repo.V1.Channel.{ClawChannel}
use hackaway_repo.Harness.Contract.{Harness}
use hackaway_repo.Kube.Build.{object_meta, no_resources, mount, plain_env}
use hackaway_repo.Agent.Labels.{agent_labels}
use hackaway_repo.Agent.Secrets.{injected_secrets, peer_env}

pub record DeploymentParams : Type 0 where
  pub agent : ClawAgent
  pub namespace : String
  pub name : String
  pub otlp_endpoint : String
  pub gateway_url : String
  pub active_pvc : String
  pub channels : List ClawChannel
  pub harness : Harness

unfoldable pub harness_home_volume : String → String → Volume
harness_home_volume pvc_name mode =
    if mode == workspace_mode_persistent && not (pvc_name == "")
    then record { name = "harness-home"; source = claim pvc_name false }
    else record { name = "harness-home"; source = empty_dir }

-- The ports and periods are Go's `int`, converted by `int32`.
unfoldable pub build_probe : String → ℤ → ℤ → ℤ → Probe
build_probe path port initial_delay period = record {
  handler =
      if path == ""
      then exec ("test" ∷ "-f" ∷ "/proc/1/status" ∷ [])
      else http_get path (int32 port);
  initial_delay_seconds = int32 initial_delay;
  period_seconds = int32 period;
}

unfoldable pub pod_security_context : Harness → Option PodSecurityContext
pod_security_context h = elim h.run_as_user [
  | none ↦ none
  | some uid ↦
      some (record { run_as_user = some uid; run_as_group = some uid; fs_group = some uid })
]

image_of : DeploymentParams → String
image_of p =
    if p.agent.spec.harness.image == "" then p.harness.default_image else p.agent.spec.harness.image

copy_extensions : DeploymentParams → Container
copy_extensions p = record {
  name = "copy-extensions";
  image = image_of p;
  image_pull_policy = "IfNotPresent";
  command = "sh" ∷ "-c" ∷ join " && " p.harness.copy_extensions_commands ∷ [];
  args = [];
  env = [];
  env_from = [];
  ports = [];
  readiness_probe = none;
  liveness_probe = none;
  volume_mounts = mount "harness-home" "/harness-home" false ∷ [];
  resources = no_resources;
  post_start = none;
}

seed_workspace : DeploymentParams → Container
seed_workspace p = record {
  name = "seed-workspace";
  image = "busybox:1.36";
  image_pull_policy = "";
  command = "sh" ∷ "-c" ∷ join " && " p.harness.seed_commands ∷ [];
  args = [];
  env = [];
  env_from = [];
  ports = [];
  readiness_probe = none;
  liveness_probe = none;
  volume_mounts =
      mount "config-src" "/config-src" true
      ∷ mount "identity-src" "/identity-src" true
      ∷ mount "skills-src" "/skills-src" true
      ∷ mount "harness-home" "/harness-home" false
      ∷ [];
  resources = no_resources;
  post_start = none;
}

-- The variables of the main container: its name, telemetry, and the tokens of its peers.
unfoldable pub main_env : DeploymentParams → List EnvVar
main_env p =
    (plain_env "OTEL_SERVICE_NAME" p.name ∷ [])
    ++ ((if p.otlp_endpoint == ""
          then []
          else plain_env "OTEL_EXPORTER_OTLP_ENDPOINT" p.otlp_endpoint
            ∷ plain_env "OTEL_EXPORTER_OTLP_HEADERS" ""
            ∷ [])
        ++ (if p.agent.spec.a2a.enabled then peer_env p.agent.spec.a2a.peers else []))

unfoldable pub main_ports : Harness → A2ASpec → List ContainerPort
main_ports h a2a =
    record { name = "gateway"; container_port = int32 h.gateway_port; protocol = "TCP" }
    ∷ (if a2a.enabled
        then record { name = "a2a"; container_port = int32 (resolved_port a2a); protocol = "TCP" }
          ∷ []
        else [])

unfoldable pub main_mounts : DeploymentParams → List VolumeMount
main_mounts p =
    mount "harness-home" p.harness.home_path false
    ∷ (if p.agent.spec.credentials_secret == ""
        then []
        else mount "credentials-secret" (append p.harness.home_path "/credentials") true ∷ [])

unfoldable pub main_container : DeploymentParams → Container
unfolding image_of
main_container p = record {
  name = p.harness.container_name;
  image = image_of p;
  image_pull_policy = "IfNotPresent";
  command = p.harness.container_command;
  args = [];
  env = main_env p;
  env_from = (injected_secrets p.agent p.gateway_url p.channels).env_from;
  ports = main_ports p.harness p.agent.spec.a2a;
  readiness_probe =
      some (build_probe p.harness.readiness_path p.harness.gateway_port (pos 5) (pos 10));
  liveness_probe =
      some (build_probe p.harness.liveness_path p.harness.gateway_port (pos 10) (pos 30));
  volume_mounts = main_mounts p;
  resources = record {
    requests = p.agent.spec.resources.requests;
    limits = p.agent.spec.resources.limits;
  };
  post_start = none;
}

unfoldable pub agent_volumes : DeploymentParams → List Volume
agent_volumes p =
    harness_home_volume p.active_pvc p.agent.spec.workspace.mode
    ∷ record {
      name = "config-src";
      source = config_map (append p.name p.harness.config_map_suffix) none;
    }
    ∷ record { name = "identity-src"; source = config_map (append p.name "-identity") none }
    ∷ record { name = "skills-src"; source = config_map (append p.name "-skills") (some true) }
    ∷ (if p.agent.spec.credentials_secret == ""
        then []
        else record {
          name = "credentials-secret";
          source = secret p.agent.spec.credentials_secret (some (pos 0o400)) (some true);
        }
          ∷ [])

abbrev restart_policy_of : ClawAgentSpec → String
restart_policy_of spec =
    if spec.lifecycle.restart_policy == "" then "Always" else spec.lifecycle.restart_policy

unfoldable pub agent_deployment : DeploymentParams → Deployment
unfolding copy_extensions seed_workspace image_of
agent_deployment p = record {
  meta = object_meta p.name p.namespace (agent_labels p.name);
  spec = record {
    replicas = some (pos 1);
    selector = agent_labels p.name;
    template_labels = agent_labels p.name;
    template_spec = record {
      security_context = pod_security_context p.harness;
      restart_policy = restart_policy_of p.agent.spec;
      init_containers = copy_extensions p ∷ seed_workspace p ∷ [];
      containers = main_container p ∷ [];
      volumes = agent_volumes p;
    };
  };
  conditions = [];
  ready_replicas = pos 0;
  unavailable_replicas = pos 0;
}

unfoldable pub service_ports : Harness → A2ASpec → List ServicePort
service_ports h a2a =
    record {
      name = "gateway";
      port = int32 h.gateway_port;
      target_port = int32 h.gateway_port;
      protocol = "TCP";
    }
    ∷ (if a2a.enabled
        then record {
          name = "a2a";
          port = int32 (resolved_port a2a);
          target_port = int32 (resolved_port a2a);
          protocol = "TCP";
        }
          ∷ []
        else [])

unfoldable pub agent_service : Harness → ClawAgent → String → String → Service
agent_service h agent ns name = record {
  meta = object_meta name ns (agent_labels name);
  spec = record {
    selector = agent_labels name;
    ports = service_ports h agent.spec.a2a;
    cluster_ip = "";
  };
}
