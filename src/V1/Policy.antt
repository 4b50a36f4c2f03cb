-- ===== src/V1/Policy.antt =====
-- api/v1/clawpolicy_types.go
use hackaway_repo.Base.{ℤ, String, List}
use hackaway_repo.Kube.Objects.{ObjectMeta}

pub record ToolPolicySpec : Type 0 where
  pub allow : List String
  pub deny : List String

pub record BudgetSpec : Type 0 where
  pub daily : ℤ
  pub monthly : ℤ
  pub warn_at : String
  pub downgrade_model : String
  pub downgrade_provider : String

pub record ClawPolicySpec : Type 0 where
  pub tool_policy : ToolPolicySpec
  pub budget : BudgetSpec

pub record ClawPolicy : Type 0 where
  pub meta : ObjectMeta
  pub spec : ClawPolicySpec
