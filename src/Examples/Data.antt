-- ===== src/Examples/Data.antt =====
-- A small cluster in memory: an agent `bot` in the namespace `ns`, its claim, its deployment.
use hackaway_repo.Base.{pos, String, true, false, none, some, [], ◌∷◌, ◌==◌, if◌then◌else◌, Option}
use hackaway_repo.Kube.Objects.{Pvc, Pod, Deployment, Quantity, PodSpec}
use hackaway_repo.V1.Agent.{ClawAgent, WorkspaceSpec, A2APeer}
use hackaway_repo.V1.Channel.{ClawChannel}
use hackaway_repo.V1.Gateway.{ClawGateway, GatewayEvaluatorSpec}
use hackaway_repo.V1.Observability.{ClawObservability}
use hackaway_repo.Client.{Key}
use hackaway_repo.Client.Memory.{Memory}
use hackaway_repo.Harness.Json.{Encoding}
use hackaway_repo.Kube.Build.{object_meta}

abbrev pub slack : ClawChannel
slack = record {
  meta = object_meta "chat" "ns" [];
  spec = record { type = "slack"; enabled = none; credentials_secret = "slack-keys"; config = [] };
}

abbrev pub peer : A2APeer
peer = record {
  name = "other-bot";
  agent_card_url = "http://other-bot.ns:18800";
  credentials_secret = "other-token";
}

abbrev pub workspace : String → WorkspaceSpec
workspace mode = record {
  mode = mode;
  storage_size = "10Gi";
  storage_class_name = none;
  reclaim_policy = "delete";
}

abbrev pub bot : String → ClawAgent
bot mode = record {
  meta = object_meta "bot" "ns" [];
  spec = record {
    harness = record { type = "openclaw"; image = "" };
    identity = record { soul = "calm"; user = ""; agent_identity = "" };
    skill_set = "";
    policy = "";
    channels = "chat" ∷ [];
    gateway = "";
    observability = "";
    telemetry_capture = record {
      input_messages = false;
      output_messages = false;
      system_instructions = false;
      tool_definitions = false;
      tool_content = false;
      sample_rate = "";
    };
    model = record { provider = "anthropic"; name = "claude"; fallback = none };
    resources = record { requests = none; limits = none };
    lifecycle = record {
      restart_policy = "";
      hibernate_after_idle_minutes = none;
      max_runtime = "";
    };
    workspace = workspace mode;
    credentials_secret = "";
    a2a = record {
      enabled = true;
      agent_card_name = "";
      agent_card_description = "";
      skills = [];
      port = pos 0;
      peers = peer ∷ [];
      security_token_secret = "a2a-token";
    };
  };
  status = record { phase = ""; pod_name = ""; workspace_pvc = "" };
}

abbrev pub claim_named : String → Quantity → Pvc
claim_named name size = record {
  meta = object_meta name "ns" [];
  access_modes = "ReadWriteOnce" ∷ [];
  requests = ("storage", size) ∷ [];
  storage_class_name = none;
}

abbrev pub no_pod : PodSpec
no_pod = record {
  security_context = none;
  restart_policy = "";
  init_containers = [];
  containers = [];
  volumes = [];
}

abbrev pub copier : Pod
copier = record { meta = object_meta "bot-pvc-migrate" "ns" []; spec = no_pod; phase = "Succeeded" }

abbrev pub stopped_bot : Deployment
stopped_bot = record {
  meta = object_meta "bot" "ns" [];
  spec = record {
    replicas = some (pos 0);
    selector = [];
    template_labels = [];
    template_spec = no_pod;
  };
  conditions = [];
  ready_replicas = pos 0;
  unavailable_replicas = pos 0;
}

abbrev pub empty : Memory
empty = record {
  config_maps = λ x. none;
  deployments = λ x. none;
  services = λ x. none;
  pvcs = λ x. none;
  pods = λ x. none;
  agents = λ x. none;
  channels = λ x. none;
  gateways = λ x. none;
  policies = λ x. none;
  skill_sets = λ x. none;
  observabilities = λ x. none;
  agent_list = [];
  channel_list = [];
  pod_list = [];
}

abbrev pub at {ℓ} : {A : Type ℓ} → String → A → Key → Option A
at name a x = if x.name == name then some a else none

-- The claim `bot-home` alone.
abbrev pub one_claim : Memory
one_claim = record empty { pvcs = at "bot-home" (claim_named "bot-home" "5Gi") }

-- The agent is stopped, its pod has copied the claim to the larger one.
abbrev pub copied : Memory
copied = record empty {
  deployments = at "bot" stopped_bot;
  pods = at "bot-pvc-migrate" copier;
  pvcs = λ x.
      if x.name == "bot-home"
      then some (claim_named "bot-home" "5Gi")
      else (if x.name == "bot-home-v2" then some (claim_named "bot-home-v2" "10Gi") else none);
}

abbrev pub watched : Memory
watched = record empty { agent_list = bot "persistent" ∷ [] }

abbrev pub encoding : Encoding
encoding = record { marshal_indent = λ j. some ""; parse_float = λ s. none; ranged = λ kvs. kvs }

-- The agent, whose workspace is ephemeral, and the claim that it had before.
abbrev pub orphaned : Memory
orphaned = record one_claim { agents = at "bot" (bot "ephemeral") }

-- A gateway with a classifier that asks for a model of Ollama.
abbrev classifier : GatewayEvaluatorSpec
classifier = record {
  name = "guard";
  type = "classifier";
  priority = pos 1;
  patterns = [];
  action = "block";
  block_reply = "";
  emit_event = false;
  classifier_model = "guard:1b";
  ollama_endpoint = "http://ollama:11434";
  timeout_ms = pos 0;
  proxy_url = "";
  redact_replacement = "";
  webhooks = [];
  classifier_endpoint = "";
  routes = none;
}

abbrev pub guarded : ClawGateway
guarded = record {
  meta = object_meta "front" "ns" [];
  spec = record {
    topology = "central";
    port = pos 9000;
    routing = record { enabled = true; log_every_decision = false; evaluators = classifier ∷ [] };
    anomaly = record {
      spend_spike_multiplier = pos 0;
      idle_burn_minutes = pos 0;
      error_loop_threshold = pos 0;
      token_inflation_multiplier = pos 0;
      check_interval_seconds = pos 0;
    };
    webhooks = [];
  };
}

abbrev pub monitored : ClawObservability
monitored = record {
  meta = object_meta "traces" "ns" [];
  spec = record {
    tempo = record {
      enabled = true;
      retention_days = pos 7;
      storage = record { size = ""; storage_class = "" };
    };
    grafana = record {
      enabled = true;
      dashboards = [];
      admin_credentials_secret = "";
      expose = "";
    };
    otlp_endpoint = "";
    otlp_protocol = "";
  };
  status = record { tempo_ready = true; grafana_ready = true };
}

abbrev pub observed : Memory
observed = record one_claim { observabilities = at "traces" monitored }
