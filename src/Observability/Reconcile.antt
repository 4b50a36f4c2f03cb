-- ===== src/Observability/Reconcile.antt =====
-- internal/controller/clawobservability_controller.go, `Reconcile`.
use hackaway_repo.Base.{String, Bool, false, if◌then◌else◌}
use hackaway_repo.V1.Observability.{ClawObservability}
use hackaway_repo.Client.{
  config_map, deployment, service, observability, Key, is_not_found, Result, ok, err, panic, Client,
  M, pure, fail, ◌>>=◌, ◌>>◌, attempt, reads,
}
use hackaway_repo.Ensure.{ensure_resource}
use hackaway_repo.Agent.Volume.{key}
use hackaway_repo.Agent.Status.{is_available}
use hackaway_repo.Observability.Objects.{
  tempo_config_map, tempo_deployment, tempo_service, grafana_datasource_config_map,
  grafana_dashboard_config_map, grafana_dashboard_json_config_map, grafana_deployment,
  grafana_service,
}

-- A deployment that is there and available. Any error of the read counts as false.
unfoldable pub is_deployment_available : (c : Client) → String → String → c.State → Result Bool
unfolding is_available
is_deployment_available c ns name s = elim (c.get deployment (key name ns) s) [
  | ok d ↦ ok (is_available d.conditions)
  | err _ ↦ ok false
  | panic ↦ panic
]

module _ (c : Client) (dashboard_json : String) where
  open c use {State, get, update_status}

  unfoldable pub ensure_tempo : ClawObservability → M State (Unit {0})
  unfolding ensure_resource
  ensure_tempo obs = do
    let ns = obs.meta.namespace
    ensure_resource c config_map obs.meta (tempo_config_map ns) "tempo-config-cm"
    ensure_resource c deployment obs.meta (tempo_deployment ns) "tempo-deployment"
    ensure_resource c service obs.meta (tempo_service ns) "tempo-service"

  unfoldable pub ensure_grafana : ClawObservability → M State (Unit {0})
  unfolding ensure_resource
  ensure_grafana obs = do
    let ns = obs.meta.namespace
    ensure_resource c config_map obs.meta (grafana_datasource_config_map ns) "grafana-datasource-cm"
    ensure_resource c config_map obs.meta (grafana_dashboard_config_map ns) "grafana-dashboard-cm"
    ensure_resource c config_map obs.meta (grafana_dashboard_json_config_map dashboard_json ns)
        "grafana-dashboard-json-cm"
    ensure_resource c deployment obs.meta (grafana_deployment ns) "grafana-deployment"
    ensure_resource c service obs.meta (grafana_service ns) "grafana-service"

  -- What is enabled.
  unfoldable pub ensure_stack : ClawObservability → M State (Unit {0})
  unfolding ensure_tempo ensure_grafana
  ensure_stack obs = do
    if obs.spec.tempo.enabled then ensure_tempo obs else pure tt
    if obs.spec.grafana.enabled then ensure_grafana obs else pure tt

  -- The status is written at every reconciliation.
  unfoldable pub write_readiness : ClawObservability → M State (Unit {0})
  unfolding is_deployment_available
  write_readiness obs = do
    tempo_ready ← reads (is_deployment_available c obs.meta.namespace "tempo")
    grafana_ready ← reads (is_deployment_available c obs.meta.namespace "grafana")
    update_status observability (record obs {
      status = record { tempo_ready = tempo_ready; grafana_ready = grafana_ready };
    })

  -- The reconciliation of a resource that was read.
  unfoldable pub reconcile_observability : ClawObservability → M State (Unit {0})
  unfolding ensure_stack write_readiness
  reconcile_observability obs = do ensure_stack obs; write_readiness obs

  unfoldable pub reconcile : Key → M State (Unit {0})
  unfolding reconcile_observability
  reconcile x =
      attempt (reads (get observability x)) reconcile_observability
        λ e. if is_not_found e then pure tt else fail e
