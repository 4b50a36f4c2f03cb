-- ===== src/Harness/OpenClaw/Routing.antt =====
-- internal/harness/openclaw.go, `buildObserveclawConfig`: routing and webhooks from the gateway, and
-- the whole configuration of the observeclaw plugin.
use hackaway_repo.Base.{
  String, Bool, true, false, Option, none, some, List, [], ◌∷◌, ◌++◌, map, insert, ◌==◌, nonempty,
  if◌then◌else◌,
}
use hackaway_repo.V1.Agent.{ClawAgent}
use hackaway_repo.V1.Policy.{ClawPolicy}
use hackaway_repo.V1.Gateway.{
  ClawGateway, GatewayEvaluatorSpec, GatewayWebhookSpec, EvaluatorRouteSpec,
}
use hackaway_repo.Harness.Json.{Json, bool, int, str, object, array, strings, num, Encoding}
use hackaway_repo.Harness.OpenClaw.Policy.{
  Map, put_if, put_text, put_pos, budget_defaults, downgrade_model, downgrade_provider, tool_allow,
  tool_deny, anomaly_config,
}

route_entry : String × EvaluatorRouteSpec → String × Json
route_entry (k, v) = (k, object (("provider", str v.provider) ∷ ("model", str v.model) ∷ []))

put_routes : Option (List (String × EvaluatorRouteSpec)) → Map → Map
unfolding route_entry
put_routes none m = m
put_routes (some rs) m = insert "routes" (object (map route_entry rs)) m

unfoldable pub evaluator_entry : GatewayEvaluatorSpec → Map
unfolding put_routes
evaluator_entry ev = put_routes ev.routes (
    put_text "proxyUrl" ev.proxy_url (
      put_text "redactReplacement" ev.redact_replacement (
        put_pos "timeoutMs" ev.timeout_ms (
          put_text "classifierModel" ev.classifier_model (
            put_if ev.emit_event "emitEvent" (bool true) (
              put_text "blockReply" ev.block_reply (
                put_if (nonempty ev.patterns) "patterns" (strings ev.patterns) (
                  put_text "action" ev.action (
                    ("name", str ev.name)
                    ∷ ("type", str ev.type)
                    ∷ ("priority", int ev.priority)
                    ∷ ("enabled", bool true)
                    ∷ [])))))))))

unfoldable pub gateway_proxy : Map
gateway_proxy =
    ("name", str "gateway-proxy")
    ∷ ("type", str "regex")
    ∷ ("priority", num 0)
    ∷ ("enabled", bool true)
    ∷ ("action", str "proxy")
    ∷ ("patterns", strings ("[\\s\\S]" ∷ []))
    ∷ ("proxyProvider", str "gateway-anthropic")
    ∷ ("proxyModel", str "claude-sonnet-4-6")
    ∷ []

gateway_evaluators : Option ClawGateway → List Map
gateway_evaluators none = []
gateway_evaluators (some g) = map evaluator_entry g.spec.routing.evaluators

-- The evaluators of the gateway, and the catch-all proxy behind them.
unfoldable pub evaluators : Option ClawGateway → String → List Map
unfolding gateway_evaluators
evaluators gateway gateway_url =
    if gateway_url == ""
    then gateway_evaluators gateway
    else gateway_evaluators gateway ++ gateway_proxy ∷ []

logs_routing : Option ClawGateway → Bool
logs_routing none = false
logs_routing (some g) = g.spec.routing.log_every_decision

unfoldable pub routing_config : Option ClawGateway → String → Map
unfolding logs_routing
routing_config gateway gateway_url =
    ("enabled", bool (nonempty (evaluators gateway gateway_url)))
    ∷ ("logRouting", bool (logs_routing gateway))
    ∷ ("evaluators", array (map object (evaluators gateway gateway_url)))
    ∷ []

header_entry : String × String → String × Json
header_entry (k, v) = (k, str v)

webhook_entry : GatewayWebhookSpec → Json
unfolding header_entry
webhook_entry wh = object (
    put_if (nonempty wh.headers) "headers" (object (map header_entry wh.headers))
      (put_text "minSeverity" wh.min_severity (("url", str wh.url) ∷ [])))

unfoldable pub webhooks : Option ClawGateway → List Json
unfolding webhook_entry
webhooks none = []
webhooks (some g) = map webhook_entry g.spec.webhooks

unfoldable pub build_observeclaw_config :
    Encoding → String → ClawAgent → String → Option ClawPolicy → Option ClawGateway → Map
build_observeclaw_config e home_path agent gateway_url policy gateway =
    ("enabled", bool true)
    ∷ ("currency", str "USD")
    ∷ (
      "budgets",
      object (("defaults", object (budget_defaults e policy)) ∷ ("agents", object []) ∷ []),
    )
    ∷ ("downgradeModel", str (downgrade_model policy))
    ∷ ("downgradeProvider", str (downgrade_provider policy))
    ∷ (
      "toolPolicy",
      object (
          (
            "defaults",
            object (
                ("allow", strings (tool_allow policy))
                ∷ ("deny", strings (tool_deny home_path agent policy))
                ∷ []),
          )
          ∷ ("agents", object [])
          ∷ []),
    )
    ∷ ("anomaly", object (anomaly_config gateway))
    ∷ ("routing", object (routing_config gateway gateway_url))
    ∷ ("webhooks", array (webhooks gateway))
    ∷ []
