-- ===== src/Examples/Controllers.antt =====
-- The theorems on the controllers of gateways and of observability, at the clusters of
-- Examples/Data.
use hackaway_repo.Base.{◌⊎◌, ◌↔◌, true, ◌≡◌, refl, contains}
use hackaway_repo.Client.{config_map, deployment, service, observability, pvc, key_of, ok}
use hackaway_repo.Client.Memory.{memory, holding}
use hackaway_repo.Client.Memory.Lawfulness.{memory-Lawful}
use hackaway_repo.Agent.Volume.{key}
use hackaway_repo.V1.Observability.{ClawObservability}
use hackaway_repo.Ensure.Laws.{There}
use hackaway_repo.Gateway.Objects.{
  gateway_deployment, gateway_service, ollama_deployment, ollama_resources, ollama_service,
}
use hackaway_repo.Gateway.Reconcile.{reconcile_gateway, ollama_model}
use hackaway_repo.Gateway.Laws.{
  named, OllamaThere, reconcile_gateway-Keeps, reconcile_gateway-There,
}
use hackaway_repo.Observability.Objects.{
  tempo_config_map, grafana_datasource_config_map, grafana_dashboard_config_map,
  grafana_dashboard_json_config_map, tempo_deployment, grafana_deployment, tempo_service,
  grafana_service,
}
use hackaway_repo.Observability.Reconcile.{reconcile_observability}
use hackaway_repo.Observability.Keeps.{OnlyStatus, reconcile_observability-keeps}
use hackaway_repo.Observability.Laws.{Available, reconcile_observability-truthful}
use hackaway_repo.Examples.Data.{one_claim, claim_named, guarded, monitored, observed}

claim_there :
    memory.get pvc (key "bot-home" "ns") (holding one_claim) ≡ ok (claim_named "bot-home" "5Gi")
unfolding memory holding
claim_there = refl

reconcile_gateway-Keeps_example :
    memory.get pvc (key "bot-home" "ns") (reconcile_gateway memory guarded (holding one_claim)).1
    ≡ ok (claim_named "bot-home" "5Gi")
reconcile_gateway-Keeps_example =
    reconcile_gateway-Keeps memory memory-Lawful guarded (holding one_claim) pvc
      (key "bot-home" "ns") (claim_named "bot-home" "5Gi") claim_there

gateway_done : (reconcile_gateway memory guarded (holding one_claim)).0 ≡ ok tt
unfolding memory holding reconcile_gateway ollama_model ollama_resources contains ollama_deployment
    gateway_deployment ollama_service gateway_service
gateway_done = refl

reconcile_gateway-There_example :
    let t = (reconcile_gateway memory guarded (holding one_claim)).1 in
    There memory config_map (named guarded "-gateway-script") t
    × There memory deployment (named guarded "-gateway") t
    × There memory service (named guarded "-gateway") t
    × OllamaThere memory guarded guarded.spec.routing.evaluators t
reconcile_gateway-There_example =
    reconcile_gateway-There memory memory-Lawful guarded (holding one_claim) gateway_done

observability_done : (reconcile_observability memory "{}" monitored (holding observed)).0 ≡ ok tt
unfolding memory holding reconcile_observability tempo_config_map grafana_datasource_config_map
    grafana_dashboard_config_map grafana_dashboard_json_config_map tempo_deployment
    grafana_deployment tempo_service grafana_service
observability_done = refl

reconcile_observability-truthful_example :
    let t = (reconcile_observability memory "{}" monitored (holding observed)).1 in
    (o : ClawObservability) × (memory.get observability (key_of observability monitored) t ≡ ok o)
    × ((o.status.tempo_ready ≡ true) ↔ Available memory "ns" "tempo" t)
    × ((o.status.grafana_ready ≡ true) ↔ Available memory "ns" "grafana" t)
reconcile_observability-truthful_example =
    reconcile_observability-truthful memory memory-Lawful "{}" monitored (holding observed)
      observability_done

observed_there :
    memory.get observability (key_of observability monitored) (holding observed) ≡ ok monitored
unfolding memory holding
observed_there = refl

reconcile_observability-keeps_example :
    let t = (reconcile_observability memory "{}" monitored (holding observed)).1 in
    let x = key_of observability monitored in
    (memory.get observability x t ≡ ok monitored)
    ⊎ OnlyStatus memory monitored observability x monitored t
reconcile_observability-keeps_example =
    reconcile_observability-keeps memory memory-Lawful "{}" monitored (holding observed)
      observability (key_of observability monitored) monitored observed_there
