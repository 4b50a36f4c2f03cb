-- ===== src/Observability/Objects.antt =====
-- internal/controller/clawobservability_controller.go: the objects of Tempo and Grafana.
use hackaway_repo.Base.{pos, String, true, [], ◌∷◌, concat}
use hackaway_repo.Kube.Objects.{Labels, ConfigMap, Deployment, Service}
use hackaway_repo.Kube.Build.{
  plain_env, mount, plain_container, container_port, service_port, config_volume, pod_spec,
  single_deployment, plain_service, text_config_map,
}

unfoldable pub app_labels : String → Labels
app_labels app = ("app", app) ∷ ("app.kubernetes.io/managed-by", "clawbernetes") ∷ []

unfoldable pub tempo_config_map : String → ConfigMap
tempo_config_map ns = text_config_map "tempo-config" ns (app_labels "tempo") (
    (
      "tempo.yaml",
      concat (
          "stream_over_http_enabled: true\n" ∷ "server:\n" ∷ "  http_listen_port: 3200\n"
          ∷ "distributor:\n" ∷ "  receivers:\n" ∷ "    otlp:\n" ∷ "      protocols:\n"
          ∷ "        http:\n" ∷ "          endpoint: \"0.0.0.0:4318\"\n" ∷ "storage:\n"
          ∷ "  trace:\n" ∷ "    backend: local\n" ∷ "    local:\n"
          ∷ "      path: /var/tempo/traces\n" ∷ "    wal:\n" ∷ "      path: /var/tempo/wal\n" ∷ []),
    )
    ∷ [])

unfoldable pub tempo_deployment : String → Deployment
tempo_deployment ns = single_deployment "tempo" ns (app_labels "tempo") (
    pod_spec []
      (record (plain_container "tempo" "grafana/tempo:2.6.1") {
        args = "-config.file=/etc/tempo/tempo.yaml" ∷ [];
        ports = container_port "otlp-http" (pos 4318) ∷ container_port "tempo-http" (pos 3200) ∷ [];
        volume_mounts = mount "tempo-config" "/etc/tempo" true ∷ [];
      }
        ∷ [])
      (config_volume "tempo-config" "tempo-config" ∷ []))

unfoldable pub tempo_service : String → Service
tempo_service ns =
    plain_service "tempo" ns (app_labels "tempo")
      (service_port "otlp-http" (pos 4318) ∷ service_port "tempo-http" (pos 3200) ∷ [])

unfoldable pub grafana_datasource_config_map : String → ConfigMap
grafana_datasource_config_map ns = text_config_map "grafana-datasources" ns (app_labels "grafana") (
    (
      "datasources.yaml",
      concat (
          "apiVersion: 1\n" ∷ "datasources:\n" ∷ "  - name: Tempo\n" ∷ "    type: tempo\n"
          ∷ "    uid: tempo\n" ∷ "    access: proxy\n" ∷ "    url: http://tempo." ∷ ns
          ∷ ".svc.cluster.local:3200\n" ∷ "    isDefault: true\n" ∷ "    editable: false\n" ∷ []),
    )
    ∷ [])

unfoldable pub grafana_dashboard_config_map : String → ConfigMap
grafana_dashboard_config_map ns = text_config_map "grafana-dashboards" ns (app_labels "grafana") (
    (
      "dashboards.yaml",
      concat (
          "apiVersion: 1\n" ∷ "providers:\n" ∷ "  - name: clawbernetes\n" ∷ "    orgId: 1\n"
          ∷ "    folder: Clawbernetes\n" ∷ "    type: file\n" ∷ "    disableDeletion: false\n"
          ∷ "    editable: true\n" ∷ "    options:\n" ∷ "      path: /var/lib/grafana/dashboards\n"
          ∷ "      foldersFromFilesStructure: false\n" ∷ []),
    )
    ∷ [])

-- The text is the embedded file fleet-overview-dashboard.json.
unfoldable pub grafana_dashboard_json_config_map : String → String → ConfigMap
grafana_dashboard_json_config_map dashboard_json ns =
    text_config_map "grafana-dashboard-json" ns (app_labels "grafana")
      (("fleet-overview.json", dashboard_json) ∷ [])

unfoldable pub grafana_deployment : String → Deployment
grafana_deployment ns = single_deployment "grafana" ns (app_labels "grafana") (
    pod_spec []
      (record (plain_container "grafana" "grafana/grafana:latest") {
        ports = container_port "http" (pos 3000) ∷ [];
        env =
            plain_env "GF_AUTH_ANONYMOUS_ENABLED" "true"
            ∷ plain_env "GF_AUTH_ANONYMOUS_ORG_ROLE" "Admin"
            ∷ plain_env "GF_AUTH_DISABLE_LOGIN_FORM" "true"
            ∷ [];
        volume_mounts =
            mount "datasources" "/etc/grafana/provisioning/datasources" true
            ∷ mount "dashboard-provider" "/etc/grafana/provisioning/dashboards" true
            ∷ mount "dashboard-json" "/var/lib/grafana/dashboards" true
            ∷ [];
      }
        ∷ [])
      (config_volume "datasources" "grafana-datasources"
        ∷ config_volume "dashboard-provider" "grafana-dashboards"
        ∷ config_volume "dashboard-json" "grafana-dashboard-json"
        ∷ []))

unfoldable pub grafana_service : String → Service
grafana_service ns =
    plain_service "grafana" ns (app_labels "grafana") (service_port "http" (pos 3000) ∷ [])
