-- ===== src/Harness/Hermes.antt =====
-- internal/harness/hermes.go: the Hermes runtime, whose configuration is YAML text.
use hackaway_repo.Base.{
  ℤ, pos, String, none, some, List, [], ◌∷◌, ◌++◌, ◌==◌, concat, append, decimal, nonempty,
  if◌then◌else◌,
}
use hackaway_repo.V1.Agent.{AgentModelSpec}
use hackaway_repo.V1.Channel.{ClawChannel, channels_with_bot_token, channels_with_app_token, flag}
use hackaway_repo.Harness.Json.{Encoding}
use hackaway_repo.Harness.Contract.{ConfigInput, Harness}
use hackaway_repo.Harness.OpenClaw.Providers.{api_key_placeholder, token_placeholder}

-- Each known provider goes by its own name, and so does every other.
unfoldable pub hermes_provider_name : String → String
hermes_provider_name provider =
    if provider == "anthropic"
    then "anthropic"
    else (if provider == "openai"
        then "openai"
        else (if provider == "google" then "google" else provider))

-- What the builder has written, as the list of its pieces.
model_lines : AgentModelSpec → List String
model_lines model =
    if model.provider == ""
    then []
    else ("model:\n" ∷ "  provider: " ∷ hermes_provider_name model.provider ∷ "\n" ∷ [])
      ++ (if model.name == "" then [] else "  model: " ∷ model.name ∷ "\n" ∷ [])
      ++ "  api_key: " ∷ api_key_placeholder model.provider ∷ "\n" ∷ "\n" ∷ []

-- The lines are in the order in which the map is visited.
config_lines : List (String × String) → List String
config_lines [] = []
config_lines ((k, v) ∷ config) = "    " ∷ k ∷ ": " ∷ v ∷ "\n" ∷ config_lines config

channel_lines : Encoding → ClawChannel → List String
unfolding config_lines
channel_lines e ch =
    ("  " ∷ ch.spec.type ∷ ":\n" ∷ "    enabled: true\n" ∷ [])
    ++ ((if flag channels_with_bot_token ch.spec.type
          then "    bot_token: " ∷ token_placeholder ch.spec.type "_BOT_TOKEN" ∷ "\n" ∷ []
          else [])
        ++ ((if flag channels_with_app_token ch.spec.type
              then "    app_token: " ∷ token_placeholder ch.spec.type "_APP_TOKEN" ∷ "\n" ∷ []
              else [])
            ++ config_lines (e.ranged ch.spec.config)))

all_channel_lines : Encoding → List ClawChannel → List String
unfolding channel_lines
all_channel_lines e [] = []
all_channel_lines e (ch ∷ chs) = channel_lines e ch ++ all_channel_lines e chs

channels_lines : Encoding → List ClawChannel → List String
unfolding all_channel_lines
channels_lines e chs =
    if nonempty chs then "channels:\n" ∷ (all_channel_lines e chs ++ "\n" ∷ []) else []

otel_lines : String → String → List String
otel_lines endpoint name =
    if endpoint == ""
    then []
    else "diagnostics:\n" ∷ "  otel:\n" ∷ "    enabled: true\n" ∷ "    endpoint: " ∷ endpoint ∷ "\n"
      ∷ "    service_name: " ∷ name ∷ "\n" ∷ "\n" ∷ []

abbrev hermes_port : ℤ
hermes_port = pos 8642

unfoldable pub hermes_config : Encoding → ConfigInput → String
unfolding model_lines channels_lines otel_lines
hermes_config e input = concat (
    ("# Hermes Agent config — generated by Clawbernetes operator\n" ∷ "# Agent: " ∷ input.name
      ∷ "\n\n" ∷ [])
    ++ (model_lines input.agent.spec.model
        ++ (("gateway:\n"
              ∷ "  port: "
              ∷ decimal hermes_port
              ∷ "\n"
              ∷ "  host: 0.0.0.0\n"
              ∷ "\n"
              ∷ "terminal:\n"
              ∷ "  backend: local\n"
              ∷ "\n"
              ∷ "memory:\n"
              ∷ "  limit: 100000\n"
              ∷ "  user_profile_tokens: 2000\n"
              ∷ "\n"
              ∷ "security:\n"
              ∷ "  redact_secrets: true\n"
              ∷ "\n"
              ∷ [])
            ++ (channels_lines e input.channels ++ otel_lines input.otlp_endpoint input.name))))

unfoldable pub hermes : Encoding → Harness
hermes e = record {
  name = "hermes";
  default_image = "nousresearch/hermes-agent:latest";
  gateway_port = hermes_port;
  home_path = "/opt/data";
  workspace_path = "/opt/data/skills";
  extensions_path = "/opt/data/plugins";
  config_file_name = "config.yaml";
  config_map_suffix = "-hermes-config";
  readiness_path = "";
  liveness_path = "";
  container_name = "hermes";
  container_command = "hermes" ∷ "gateway" ∷ "run" ∷ [];
  run_as_user = none;
  build_config = λ input. some (hermes_config e input);
  copy_extensions_commands =
      "mkdir -p /harness-home/plugins" ∷ "echo 'hermes plugin dir ready'" ∷ [];
  seed_commands =
      "mkdir -p /harness-home/memories /harness-home/skills /harness-home/plugins"
      ∷ "cp /config-src/config.yaml /harness-home/config.yaml"
      ∷ "echo 'GATEWAY_ALLOW_ALL_USERS=true' > /harness-home/.env"
      ∷ "echo 'GATEWAY_HTTP_ENABLED=true' >> /harness-home/.env"
      ∷ "cp /config-src/HEARTBEAT.md /harness-home/skills/HEARTBEAT.md 2>/dev/null || true"
      ∷ "cp /identity-src/SOUL.md /harness-home/SOUL.md 2>/dev/null || true"
      ∷ "cp /identity-src/USER.md /harness-home/memories/USER.md 2>/dev/null || true"
      ∷ "cp /identity-src/IDENTITY.md /harness-home/memories/IDENTITY.md 2>/dev/null || true"
      ∷ append "for f in /skills-src/*; do [ -f \"$f\" ] && skill=$(basename \"$f\") && mkdir -p "
          "/harness-home/skills/$skill && cp \"$f\" /harness-home/skills/$skill/SKILL.md; done || true"
      ∷ "echo 'hermes workspace seeded'"
      ∷ [];
}
