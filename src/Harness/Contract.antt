-- ===== src/Harness/Contract.antt =====
-- internal/harness/harness.go and config_input.go
use hackaway_repo.Base.{ℤ, String, Option, List, [], ◌∷◌, concat}
use hackaway_repo.V1.Agent.{ClawAgent}
use hackaway_repo.V1.Policy.{ClawPolicy}
use hackaway_repo.V1.Gateway.{ClawGateway}
use hackaway_repo.V1.Channel.{ClawChannel}

pub record ConfigInput : Type 0 where
  pub agent : ClawAgent
  pub namespace : String
  pub name : String
  pub gateway_url : String
  pub otlp_endpoint : String
  pub policy : Option ClawPolicy
  pub gateway : Option ClawGateway
  pub channels : List ClawChannel

-- The interface `Harness`; `none` of `build_config` is an error.
pub record Harness : Type 0 where
  pub name : String
  pub default_image : String
  pub gateway_port : ℤ
  pub home_path : String
  pub workspace_path : String
  pub extensions_path : String
  pub config_file_name : String
  pub config_map_suffix : String
  pub readiness_path : String
  pub liveness_path : String
  pub container_name : String
  pub container_command : List String
  pub run_as_user : Option ℤ
  pub build_config : ConfigInput → Option String
  pub copy_extensions_commands : List String
  pub seed_commands : List String

unfoldable pub default_copy_extensions_commands : String → List String
default_copy_extensions_commands home_path =
    concat ("cp -r " ∷ home_path ∷ "/extensions /harness-home/extensions 2>/dev/null || true" ∷ [])
    ∷ concat (
        "cp -r " ∷ home_path
        ∷ "/workspace/plugins /harness-home/workspace-plugins 2>/dev/null || true" ∷ [])
    ∷ "echo 'extensions and plugins copied'"
    ∷ []

unfoldable pub default_seed_commands : String → List String
default_seed_commands config_file_name =
    "mkdir -p /harness-home/workspace/skills /harness-home/workspace/plugins"
    ∷ "cp -r /harness-home/workspace-plugins/* /harness-home/workspace/plugins/ 2>/dev/null || true"
    ∷ concat ("cp /config-src/" ∷ config_file_name ∷ " /harness-home/" ∷ config_file_name ∷ [])
    ∷ "cp /config-src/HEARTBEAT.md /harness-home/workspace/HEARTBEAT.md"
    ∷ "cp /config-src/TOOLS.md /harness-home/workspace/TOOLS.md 2>/dev/null || true"
    ∷ "cp /identity-src/SOUL.md /harness-home/workspace/SOUL.md 2>/dev/null || true"
    ∷ "cp /identity-src/USER.md /harness-home/workspace/USER.md 2>/dev/null || true"
    ∷ "cp /identity-src/IDENTITY.md /harness-home/workspace/IDENTITY.md 2>/dev/null || true"
    ∷ concat (
        "for f in /skills-src/*; do [ -f \"$f\" ] && skill=$(basename \"$f\") && mkdir -p "
        ∷ "/harness-home/workspace/skills/$skill && cp \"$f\" "
        ∷ "/harness-home/workspace/skills/$skill/SKILL.md; done || true" ∷ [])
    ∷ "echo 'workspace seeded'"
    ∷ []
