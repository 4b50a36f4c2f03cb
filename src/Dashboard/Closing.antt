-- ===== src/Dashboard/Closing.antt =====
-- internal/controller/fleet_dashboard.go: the closing part of the page.
use hackaway_repo.Base.{String, List, [], ◌∷◌}

-- Lines of the page: the explanation of the fleet.
unfoldable pub closing_lines : List String
closing_lines =
    "<h2>How It Works</h2>\n" ∷ "<div class=\"how-it-works\">\n"
    ∷ "  <p>Each AI agent in the fleet is declared as a <strong>ClawAgent</strong> custom resource.\n"
    ∷ "     The Clawbernetes operator watches for these CRs and reconciles the desired state.</p>\n"
    ∷ "\n" ∷ "  <div class=\"arrow-flow\">\n"
    ∷ "    <span class=\"step\">Apply ClawAgent CR</span>\n"
    ∷ "    <span class=\"arrow\">&#x2192;</span>\n"
    ∷ "    <span class=\"step\">Operator creates Pod with identity, skills, observeclaw plugin config</span>\n"
    ∷ "    <span class=\"arrow\">&#x2192;</span>\n"
    ∷ "    <span class=\"step\">Agent routes LLM calls through ClawGateway</span>\n"
    ∷ "    <span class=\"arrow\">&#x2192;</span>\n"
    ∷ "    <span class=\"step\">Traces flow to Tempo</span>\n"
    ∷ "    <span class=\"arrow\">&#x2192;</span>\n"
    ∷ "    <span class=\"step\">Visible in Grafana</span>\n" ∷ "  </div>\n" ∷ "\n"
    ∷ "  <p>Sample <strong>ClawAgent</strong> YAML:</p>\n"
    ∷ "<pre class=\"yaml\">apiVersion: claw.clawbernetes.io/v1\n" ∷ "kind: ClawAgent\n"
    ∷ "metadata:\n" ∷ "  name: eng-agent\n" ∷ "  namespace: clawbernetes\n" ∷ "spec:\n"
    ∷ "  identity:\n" ∷ "    soul: |\n"
    ∷ "      You are a senior software engineer with deep expertise\n"
    ∷ "      in distributed systems and Kubernetes.\n" ∷ "  skillSet: engineering-skills\n"
    ∷ "  policy: engineering-policy\n" ∷ "  gateway: main-gateway\n"
    ∷ "  observability: fleet-observability\n" ∷ "  channels:\n" ∷ "    - production-postgres\n"
    ∷ "  model:\n" ∷ "    provider: anthropic\n" ∷ "    name: claude-sonnet-4-6\n"
    ∷ "    fallback:\n" ∷ "      provider: anthropic\n" ∷ "      name: claude-haiku-4-5\n"
    ∷ "  lifecycle:\n" ∷ "    restartPolicy: Always\n" ∷ "    hibernateAfterIdleMinutes: 30\n"
    ∷ "    maxRuntime: \"24h\"</pre>\n" ∷ "\n"
    ∷ "  <p>The operator translates this into a running Pod with the correct environment,\n"
    ∷ "     secrets, and sidecar configuration. Budget policies, tool restrictions, and\n"
    ∷ "     lifecycle rules are enforced automatically.</p>\n" ∷ "</div>\n" ∷ "\n" ∷ "</body>\n"
    ∷ "</html>" ∷ []
