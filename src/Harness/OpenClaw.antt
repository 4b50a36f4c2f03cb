-- ===== src/Harness/OpenClaw.antt =====
-- internal/harness/openclaw.go and observeclaw.go: the OpenClaw runtime, and the fork that embeds it.
pub mod Policy
pub mod Routing
pub mod Providers
pub mod Plugins
pub mod Allowed
pub mod Limits
use hackaway_repo.Base.{
  ℤ, pos, String, true, Option, none, some, List, [], ◌∷◌, not, nonempty, ◌==◌,
}
use hackaway_repo.Harness.Json.{Json, object, Encoding}
use hackaway_repo.Harness.Contract.{
  ConfigInput, Harness, default_copy_extensions_commands, default_seed_commands,
}
use Policy.{Map, put_if}
use Routing.{build_observeclaw_config}
use Providers.{gateway_section, agents_section, diagnostics_section, providers, channels_section}
use Plugins.{plugins_section}

abbrev pub openclaw_port : ℤ
openclaw_port = pos 18789

abbrev pub openclaw_home : String
openclaw_home = "/home/node/.openclaw"

abbrev pub openclaw_workspace : String
openclaw_workspace = "/home/node/.openclaw/workspace"

-- `cfg` of `BuildConfig`, before it is marshalled.
unfoldable pub openclaw_config : Encoding → ConfigInput → Map
openclaw_config e input =
    put_if true "plugins"
      (object (
        plugins_section
          (build_observeclaw_config e openclaw_home input.agent input.gateway_url input.policy
            input.gateway)
          input.otlp_endpoint input.channels input.agent.spec.a2a input.name input.namespace
          openclaw_workspace))
      (put_if (nonempty input.channels) "channels" (object (channels_section input.channels [])) (
        put_if (nonempty registered) "models" (object (("providers", object registered) ∷ [])) (
          put_if (not (input.otlp_endpoint == "")) "diagnostics"
            (object (
              diagnostics_section e input.otlp_endpoint input.name
                input.agent.spec.telemetry_capture))
            (("gateway", object (gateway_section openclaw_port input.name))
              ∷ (
                "agents",
                object (agents_section openclaw_workspace input.name input.agent.spec.model),
              )
              ∷ []))))
  where
    registered : Map
    registered = providers input.gateway_url input.agent.spec.model.provider

unfoldable pub openclaw : Encoding → Harness
openclaw e = record {
  name = "openclaw";
  default_image = "ghcr.io/openclaw/openclaw:latest";
  gateway_port = openclaw_port;
  home_path = openclaw_home;
  workspace_path = openclaw_workspace;
  extensions_path = "/home/node/.openclaw/extensions";
  config_file_name = "openclaw.json";
  config_map_suffix = "-openclaw-config";
  readiness_path = "/ready";
  liveness_path = "/health";
  container_name = "openclaw";
  container_command = [];
  run_as_user = some (pos 1000);
  build_config = λ input. e.marshal_indent (object (openclaw_config e input));
  copy_extensions_commands = default_copy_extensions_commands openclaw_home;
  seed_commands = default_seed_commands "openclaw.json";
}

-- The methods that the fork overrides.
unfoldable pub observeclaw : Encoding → Harness
unfolding openclaw
observeclaw e = record (openclaw e) {
  name = "observeclaw";
  default_image = "clawbernetes/openclaw:latest";
  config_map_suffix = "-observeclaw-config";
  container_name = "observeclaw";
}
