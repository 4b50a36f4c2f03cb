-- ===== src/V1/Gateway.antt =====
-- api/v1/clawgateway_types.go
use hackaway_repo.Base.{ℤ, String, Bool, Option, List}
use hackaway_repo.Kube.Objects.{ObjectMeta}

pub record GatewayWebhookSpec : Type 0 where
  pub url : String
  pub min_severity : String
  pub headers : List (String × String)

pub record EvaluatorRouteSpec : Type 0 where
  pub provider : String
  pub model : String

-- A nil `Routes` is told from an empty one.
pub record GatewayEvaluatorSpec : Type 0 where
  pub name : String
  pub type : String
  pub priority : ℤ
  pub patterns : List String
  pub action : String
  pub block_reply : String
  pub emit_event : Bool
  pub classifier_model : String
  pub ollama_endpoint : String
  pub timeout_ms : ℤ
  pub proxy_url : String
  pub redact_replacement : String
  pub webhooks : List GatewayWebhookSpec
  pub classifier_endpoint : String
  pub routes : Option (List (String × EvaluatorRouteSpec))

pub record GatewayRoutingSpec : Type 0 where
  pub enabled : Bool
  pub log_every_decision : Bool
  pub evaluators : List GatewayEvaluatorSpec

pub record GatewayAnomalySpec : Type 0 where
  pub spend_spike_multiplier : ℤ
  pub idle_burn_minutes : ℤ
  pub error_loop_threshold : ℤ
  pub token_inflation_multiplier : ℤ
  pub check_interval_seconds : ℤ

pub record ClawGatewaySpec : Type 0 where
  pub topology : String
  pub port : ℤ
  pub routing : GatewayRoutingSpec
  pub anomaly : GatewayAnomalySpec
  pub webhooks : List GatewayWebhookSpec

pub record ClawGateway : Type 0 where
  pub meta : ObjectMeta
  pub spec : ClawGatewaySpec
