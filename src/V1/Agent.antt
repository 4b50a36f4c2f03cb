-- ===== src/V1/Agent.antt =====
-- api/v1/clawagent_types.go
use hackaway_repo.Base.{ℤ, pos, is_zero, String, Bool, Option, List, ◌==◌, if◌then◌else◌}
use hackaway_repo.Kube.Objects.{ObjectMeta, Quantity}

pub record AgentIdentitySpec : Type 0 where
  pub soul : String
  pub user : String
  pub agent_identity : String

pub record TelemetryCaptureSpec : Type 0 where
  pub input_messages : Bool
  pub output_messages : Bool
  pub system_instructions : Bool
  pub tool_definitions : Bool
  pub tool_content : Bool
  pub sample_rate : String

pub record ModelFallbackSpec : Type 0 where
  pub provider : String
  pub name : String

pub record AgentModelSpec : Type 0 where
  pub provider : String
  pub name : String
  pub fallback : Option ModelFallbackSpec

pub record AgentResourceRequirements : Type 0 where
  pub requests : Option (List (String × Quantity))
  pub limits : Option (List (String × Quantity))

pub record AgentLifecycleSpec : Type 0 where
  pub restart_policy : String
  pub hibernate_after_idle_minutes : Option ℤ
  pub max_runtime : String

abbrev pub workspace_mode_ephemeral : String
workspace_mode_ephemeral = "ephemeral"

abbrev pub workspace_mode_persistent : String
workspace_mode_persistent = "persistent"

abbrev pub reclaim_policy_retain : String
reclaim_policy_retain = "retain"

abbrev pub reclaim_policy_delete : String
reclaim_policy_delete = "delete"

abbrev pub default_workspace_storage_size : String
default_workspace_storage_size = "5Gi"

abbrev pub pvc_suffix : String
pvc_suffix = "-home"

abbrev pub pvc_resize_suffix : String
pvc_resize_suffix = "-home-v2"

pub record WorkspaceSpec : Type 0 where
  pub mode : String
  pub storage_size : String
  pub storage_class_name : Option String
  pub reclaim_policy : String

unfoldable pub is_persistent : WorkspaceSpec → Bool
is_persistent w = w.mode == workspace_mode_persistent

unfoldable pub resolved_reclaim_policy : WorkspaceSpec → String
resolved_reclaim_policy w =
    if w.reclaim_policy == "" then reclaim_policy_retain else w.reclaim_policy

unfoldable pub resolved_storage_size : WorkspaceSpec → String
resolved_storage_size w =
    if w.storage_size == "" then default_workspace_storage_size else w.storage_size

-- `HarnessType` is a string type.
pub record HarnessSpec : Type 0 where
  pub type : String
  pub image : String

pub record A2APeer : Type 0 where
  pub name : String
  pub agent_card_url : String
  pub credentials_secret : String

pub record A2ASpec : Type 0 where
  pub enabled : Bool
  pub agent_card_name : String
  pub agent_card_description : String
  pub skills : List String
  pub port : ℤ
  pub peers : List A2APeer
  pub security_token_secret : String

unfoldable pub resolved_port : A2ASpec → ℤ
resolved_port a = if is_zero a.port then pos 18800 else a.port

pub record ClawAgentSpec : Type 0 where
  pub harness : HarnessSpec
  pub identity : AgentIdentitySpec
  pub skill_set : String
  pub policy : String
  pub channels : List String
  pub gateway : String
  pub observability : String
  pub telemetry_capture : TelemetryCaptureSpec
  pub model : AgentModelSpec
  pub resources : AgentResourceRequirements
  pub lifecycle : AgentLifecycleSpec
  pub workspace : WorkspaceSpec
  pub credentials_secret : String
  pub a2a : A2ASpec

pub record ClawAgentStatus : Type 0 where
  pub phase : String
  pub pod_name : String
  pub workspace_pvc : String

pub record ClawAgent : Type 0 where
  pub meta : ObjectMeta
  pub spec : ClawAgentSpec
  pub status : ClawAgentStatus
