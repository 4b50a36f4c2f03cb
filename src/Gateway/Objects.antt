-- ===== src/Gateway/Objects.antt =====
-- internal/controller/clawgateway_controller.go: the objects of a gateway.
use hackaway_repo.Base.{
  ℤ, pos, String, true, false, Option, none, some, List, [], ◌∷◌, ◌++◌, ◌==◌, append, concat,
  decimal, lookup, if◌then◌else◌,
}
use hackaway_repo.Kube.Objects.{
  Quantity, Labels, ConfigMap, Deployment, Service, EnvVar, Container, ResourceRequirements,
}
use hackaway_repo.Kube.Build.{
  plain_env, mount, plain_container, container_port, service_port, config_volume, scratch_volume,
  pod_spec, single_deployment, plain_service, text_config_map,
}
use hackaway_repo.V1.Gateway.{GatewayEvaluatorSpec, EvaluatorRouteSpec}
use hackaway_repo.Gateway.Script.{gateway_server_script}

unfoldable pub gateway_labels : String → Labels
gateway_labels name =
    ("app", append name "-gateway")
    ∷ ("clawbernetes.io/gateway", name)
    ∷ ("app.kubernetes.io/managed-by", "clawbernetes")
    ∷ []

unfoldable pub gateway_script_config_map : String → String → ConfigMap
gateway_script_config_map ns name =
    text_config_map (append name "-gateway-script") ns (gateway_labels name)
      (("server.py", gateway_server_script) ∷ [])

-- The variable for a route that is given.
unfoldable pub route_env : String → String → List (String × EvaluatorRouteSpec) → List EnvVar
route_env variable route routes = elim (lookup route routes) [
  | none ↦ []
  | some r ↦ plain_env variable r.model ∷ []
]

-- ROUTE_SIMPLE_MODEL and ROUTE_COMPLEX_MODEL, for each classifier with routes
unfoldable pub routes_env : List GatewayEvaluatorSpec → List EnvVar
unfolding route_env
routes_env [] = []
routes_env (ev ∷ evs) =
    (if ev.type == "classifier"
      then elim ev.routes [
        | none ↦ []
        | some routes ↦
            route_env "ROUTE_SIMPLE_MODEL" "simple" routes
            ++ route_env "ROUTE_COMPLEX_MODEL" "complex" routes
      ]
      else [])
    ++ routes_env evs

unfoldable pub gateway_env : List GatewayEvaluatorSpec → ℤ → String → List EnvVar
gateway_env evaluators port ollama_endpoint =
    (plain_env "GATEWAY_PORT" (decimal port)
      ∷ plain_env "UPSTREAM_BASE_URL" "https://api.anthropic.com"
      ∷ plain_env "PYTHONPATH" "/deps"
      ∷ [])
    ++ ((if ollama_endpoint == "" then [] else plain_env "OLLAMA_ENDPOINT" ollama_endpoint ∷ [])
        ++ routes_env evaluators)

unfoldable pub install_deps : Container
install_deps = record (plain_container "install-deps" "python:3.11-slim") {
  command =
      "pip" ∷ "install" ∷ "--target=/deps" ∷ "fastapi" ∷ "uvicorn[standard]" ∷ "httpx" ∷ "pydantic"
      ∷ [];
  volume_mounts = mount "deps" "/deps" false ∷ [];
}

unfoldable pub gateway_container : List EnvVar → ℤ → Container
gateway_container env port = record (plain_container "gateway" "python:3.11-slim") {
  command = "python" ∷ "/app/server.py" ∷ "--port" ∷ decimal port ∷ "--no-classifier" ∷ [];
  ports = container_port "http" port ∷ [];
  env = env;
  env_from = record { secret_ref = "openclaw-api-keys"; is_optional = some true } ∷ [];
  volume_mounts = mount "script" "/app" true ∷ mount "deps" "/deps" true ∷ [];
}

unfoldable pub gateway_deployment :
    List GatewayEvaluatorSpec → String → String → ℤ → String → Deployment
unfolding install_deps
gateway_deployment evaluators ns name port ollama_endpoint =
    single_deployment (append name "-gateway") ns (gateway_labels name) (
      pod_spec (install_deps ∷ [])
        (gateway_container (gateway_env evaluators port ollama_endpoint) port ∷ [])
        (config_volume "script" (append name "-gateway-script") ∷ scratch_volume "deps" ∷ []))

unfoldable pub gateway_service : String → String → ℤ → Service
gateway_service ns name port =
    plain_service (append name "-gateway") ns (gateway_labels name) (service_port "http" port ∷ [])

unfoldable pub ollama_labels : String → Labels
ollama_labels gw_name =
    ("app", append gw_name "-ollama")
    ∷ ("clawbernetes.io/gateway", gw_name)
    ∷ ("app.kubernetes.io/managed-by", "clawbernetes")
    ∷ []

infixl 5 ◌>>=◌
abbrev ◌>>=◌ : {A B : Type 0} → Option A → (A → Option B) → Option B
none >>= f = none
some a >>= f = f a

-- The requests and limits, of which `MustParse` would panic.
unfoldable pub ollama_resources : (String → Option Quantity) → Option ResourceRequirements
ollama_resources must_parse = do
  memory ← must_parse "2Gi"
  cpu ← must_parse "500m"
  max_memory ← must_parse "4Gi"
  max_cpu ← must_parse "2"
  some (record {
    requests = some (("memory", memory) ∷ ("cpu", cpu) ∷ []);
    limits = some (("memory", max_memory) ∷ ("cpu", max_cpu) ∷ []);
  })

unfoldable pub ollama_deployment : ResourceRequirements → String → String → String → Deployment
ollama_deployment resources ns gw_name model =
    single_deployment (append gw_name "-ollama") ns (ollama_labels gw_name) (
      pod_spec []
        (record (plain_container "ollama" "ollama/ollama:latest") {
          ports = container_port "http" (pos 11434) ∷ [];
          resources = resources;
          post_start = some ("sh" ∷ "-c" ∷ concat ("sleep 5 && ollama pull " ∷ model ∷ []) ∷ []);
        }
          ∷ [])
        [])

unfoldable pub ollama_service : String → String → Service
ollama_service ns gw_name =
    plain_service (append gw_name "-ollama") ns (ollama_labels gw_name)
      (service_port "http" (pos 11434) ∷ [])
