-- ===== src/Api/Types.antt =====
-- internal/api/server.go: what the server answers with.
use hackaway_repo.Base.{ℤ, ℕ, String, Bool, List}

pub record AgentResponse : Type 0 where
  pub name : String
  pub phase : String
  pub pod_name : String
  pub provider : String
  pub model : String
  pub soul : String
  pub channels : List String
  pub workspace_pvc : String
  pub workspace_mode : String
  pub reclaim_policy : String
  pub a2a_enabled : Bool
  pub a2a_peers : List String
  pub a2a_skills : List String
  pub budget_daily : ℤ
  pub budget_monthly : ℤ
  pub tool_deny : List String
  pub labels : List (String × String)

pub record ChannelResponse : Type 0 where
  pub name : String
  pub type : String
  pub enabled : Bool
  pub credentials_secret : String
  pub config : List (String × String)

pub record FleetSummary : Type 0 where
  pub total_agents : ℕ
  pub running_agents : ℕ
  pub total_channels : ℕ
  pub a2a_connections : ℕ

pub record ActivityEvent : Type 0 where
  pub timestamp : String
  pub agent : String
  pub direction : String
  pub type : String
  pub task_id : String
  pub status : String
  pub duration : ℤ
  pub message : String
