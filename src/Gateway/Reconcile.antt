-- ===== src/Gateway/Reconcile.antt =====
-- internal/controller/clawgateway_controller.go, `Reconcile`.
use hackaway_repo.Base.{
  ℤ, pos, is_zero, String, Option, none, some, List, [], ◌∷◌, ◌==◌, ◌&&◌, not, concat,
  if◌then◌else◌,
}
use hackaway_repo.V1.Gateway.{ClawGateway, GatewayEvaluatorSpec}
use hackaway_repo.Kube.Objects.{ResourceRequirements}
use hackaway_repo.Client.{
  config_map, deployment, service, gateway, Key, is_not_found, Result, ok, panic, Client, M, pure,
  fail, ◌>>=◌, ◌>>◌, attempt, reads, lift,
}
use hackaway_repo.Ensure.{ensure_resource}
use hackaway_repo.Gateway.Objects.{
  gateway_script_config_map, gateway_deployment, gateway_service, ollama_resources,
  ollama_deployment, ollama_service,
}

-- The port, 8443 by default.
unfoldable pub port_of : ClawGateway → ℤ
port_of gw = if is_zero gw.spec.port then pos 8443 else gw.spec.port

abbrev or_default : String → String → String
or_default s d = if s == "" then d else s

-- The model of the first classifier with an Ollama endpoint: `none` if there is no such classifier.
unfoldable pub ollama_model : List GatewayEvaluatorSpec → Option String
ollama_model [] = none
ollama_model (ev ∷ evs) =
    if ev.type == "classifier" && not (ev.ollama_endpoint == "")
    then some (or_default ev.classifier_model "llama-guard3:1b")
    else ollama_model evs

unfoldable pub ollama_endpoint_of : Option String → String → String → String
ollama_endpoint_of model ns name = elim model [
  | none ↦ ""
  | some _ ↦ concat ("http://" ∷ name ∷ "-ollama." ∷ ns ∷ ".svc.cluster.local:11434" ∷ [])
]

module _ (c : Client) where
  open c use {State, get, must_parse}

  unfoldable pub parsed_resources : Result ResourceRequirements
  parsed_resources = elim (ollama_resources must_parse) [ none ↦ panic | some r ↦ ok r ]

  -- Ollama, if an evaluator needs it.
  unfoldable pub ensure_ollama : ClawGateway → Option String → M State (Unit {0})
  unfolding ensure_resource parsed_resources
  ensure_ollama gw none = pure tt
  ensure_ollama gw (some model) = do
    resources ← lift parsed_resources
    ensure_resource c deployment gw.meta
        (ollama_deployment resources gw.meta.namespace gw.meta.name model) "ollama-deployment"
    ensure_resource c service gw.meta (ollama_service gw.meta.namespace gw.meta.name)
        "ollama-service"

  unfoldable pub ensure_gateway : ClawGateway → Option String → M State (Unit {0})
  unfolding ensure_resource
  ensure_gateway gw model = do
    let ns = gw.meta.namespace
    let name = gw.meta.name
    ensure_resource c config_map gw.meta (gateway_script_config_map ns name) "gateway-script-cm"
    ensure_resource c deployment gw.meta
        (gateway_deployment gw.spec.routing.evaluators ns name (port_of gw)
          (ollama_endpoint_of model ns name))
        "gateway-deployment"
    ensure_resource c service gw.meta (gateway_service ns name (port_of gw)) "gateway-service"

  -- The reconciliation of a gateway that was read.
  unfoldable pub reconcile_gateway : ClawGateway → M State (Unit {0})
  unfolding ensure_ollama ensure_gateway
  reconcile_gateway gw = do
    let model = ollama_model gw.spec.routing.evaluators
    ensure_ollama gw model
    ensure_gateway gw model

  -- A gateway that is not there is passed over.
  unfoldable pub reconcile : Key → M State (Unit {0})
  unfolding reconcile_gateway
  reconcile x =
      attempt (reads (get gateway x)) reconcile_gateway
        λ e. if is_not_found e then pure tt else fail e
