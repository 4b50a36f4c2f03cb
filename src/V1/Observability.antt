-- ===== src/V1/Observability.antt =====
-- api/v1/clawobservability_types.go
use hackaway_repo.Base.{ℤ, String, Bool, List}
use hackaway_repo.Kube.Objects.{ObjectMeta}

pub record TempoStorageSpec : Type 0 where
  pub size : String
  pub storage_class : String

pub record TempoSpec : Type 0 where
  pub enabled : Bool
  pub retention_days : ℤ
  pub storage : TempoStorageSpec

pub record GrafanaSpec : Type 0 where
  pub enabled : Bool
  pub dashboards : List String
  pub admin_credentials_secret : String
  pub expose : String

pub record ClawObservabilitySpec : Type 0 where
  pub tempo : TempoSpec
  pub grafana : GrafanaSpec
  pub otlp_endpoint : String
  pub otlp_protocol : String

pub record ClawObservabilityStatus : Type 0 where
  pub tempo_ready : Bool
  pub grafana_ready : Bool

pub record ClawObservability : Type 0 where
  pub meta : ObjectMeta
  pub spec : ClawObservabilitySpec
  pub status : ClawObservabilityStatus
