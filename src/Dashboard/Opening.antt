-- ===== src/Dashboard/Opening.antt =====
-- internal/controller/fleet_dashboard.go: the fixed parts of the page.
use hackaway_repo.Base.{String, List, [], ◌∷◌}

-- Lines of the page: the head of the page.
unfoldable pub opening_lines : List String
opening_lines =
    "<!DOCTYPE html>\n" ∷ "<html lang=\"en\">\n" ∷ "<head>\n" ∷ "<meta charset=\"UTF-8\">\n"
    ∷ "<meta name=\"viewport\" content=\"width=device-width, initial-scale=1.0\">\n"
    ∷ "<title>Clawbernetes Fleet Configuration</title>\n" ∷ "<style>\n"
    ∷ "  *, *::before, *::after { box-sizing: border-box; margin: 0; padding: 0; }\n" ∷ "  body {\n"
    ∷ "    font-family: -apple-system, BlinkMacSystemFont, \"Segoe UI\", Roboto, sans-serif;\n"
    ∷ "    background: #1a1a2e;\n" ∷ "    color: #e0e0e0;\n" ∷ "    padding: 2rem;\n"
    ∷ "    line-height: 1.6;\n" ∷ "  }\n" ∷ "  h1 {\n" ∷ "    text-align: center;\n"
    ∷ "    font-size: 1.8rem;\n" ∷ "    margin-bottom: 0.3rem;\n" ∷ "    color: #4ecca3;\n"
    ∷ "  }\n" ∷ "  .subtitle {\n" ∷ "    text-align: center;\n" ∷ "    color: #888;\n"
    ∷ "    margin-bottom: 2rem;\n" ∷ "    font-size: 0.9rem;\n" ∷ "  }\n" ∷ "  h2 {\n"
    ∷ "    font-size: 1.3rem;\n" ∷ "    margin: 2rem 0 1rem;\n" ∷ "    color: #4ecca3;\n"
    ∷ "    border-bottom: 1px solid #0f3460;\n" ∷ "    padding-bottom: 0.4rem;\n" ∷ "  }\n"
    ∷ "  h4 {\n" ∷ "    color: #4ecca3;\n" ∷ "    font-size: 0.85rem;\n"
    ∷ "    text-transform: uppercase;\n" ∷ "    letter-spacing: 0.05em;\n"
    ∷ "    margin-bottom: 0.4rem;\n" ∷ "    border-bottom: 1px solid #0f3460;\n"
    ∷ "    padding-bottom: 0.2rem;\n" ∷ "  }\n" ∷ "\n" ∷ "  /* Summary cards */\n"
    ∷ "  .summary-grid {\n" ∷ "    display: grid;\n"
    ∷ "    grid-template-columns: repeat(auto-fit, minmax(140px, 1fr));\n" ∷ "    gap: 1rem;\n"
    ∷ "    margin-bottom: 1rem;\n" ∷ "  }\n" ∷ "  .summary-card {\n" ∷ "    background: #16213e;\n"
    ∷ "    border: 1px solid #0f3460;\n" ∷ "    border-radius: 8px;\n" ∷ "    padding: 1.2rem;\n"
    ∷ "    text-align: center;\n" ∷ "  }\n" ∷ "  .summary-value {\n" ∷ "    font-size: 2.4rem;\n"
    ∷ "    font-weight: 700;\n" ∷ "  }\n" ∷ "  .summary-label {\n" ∷ "    font-size: 0.85rem;\n"
    ∷ "    color: #888;\n" ∷ "    text-transform: uppercase;\n" ∷ "    letter-spacing: 0.05em;\n"
    ∷ "  }\n" ∷ "\n" ∷ []

-- Lines of the page: the style of the cards.
unfoldable pub card_style_lines : List String
card_style_lines =
    "  /* Agent cards */\n" ∷ "  .agents-grid {\n" ∷ "    display: grid;\n"
    ∷ "    grid-template-columns: repeat(auto-fit, minmax(380px, 1fr));\n" ∷ "    gap: 1.2rem;\n"
    ∷ "  }\n" ∷ "  .agent-card {\n" ∷ "    background: #16213e;\n"
    ∷ "    border: 1px solid #0f3460;\n" ∷ "    border-radius: 8px;\n" ∷ "    overflow: hidden;\n"
    ∷ "  }\n" ∷ "  .agent-header {\n" ∷ "    display: flex;\n"
    ∷ "    justify-content: space-between;\n" ∷ "    align-items: center;\n"
    ∷ "    padding: 0.8rem 1rem;\n" ∷ "    background: #0f3460;\n" ∷ "  }\n" ∷ "  .agent-name {\n"
    ∷ "    font-size: 1.2rem;\n" ∷ "    font-weight: 700;\n" ∷ "  }\n" ∷ "  .phase-badge {\n"
    ∷ "    font-size: 0.75rem;\n" ∷ "    font-weight: 600;\n" ∷ "    padding: 0.2rem 0.6rem;\n"
    ∷ "    border-radius: 12px;\n" ∷ "    text-transform: uppercase;\n"
    ∷ "    letter-spacing: 0.04em;\n" ∷ "  }\n"
    ∷ "  .phase-running  { background: rgba(78,204,163,0.2); color: #4ecca3; }\n"
    ∷ "  .phase-pending  { background: rgba(255,211,105,0.2); color: #ffd369; }\n"
    ∷ "  .phase-error    { background: rgba(252,81,133,0.2);  color: #fc5185; }\n"
    ∷ "  .agent-body {\n" ∷ "    padding: 1rem;\n" ∷ "    display: flex;\n"
    ∷ "    flex-direction: column;\n" ∷ "    gap: 0.8rem;\n" ∷ "  }\n" ∷ "  .field-group { }\n"
    ∷ "  .field {\n" ∷ "    font-size: 0.88rem;\n" ∷ "    padding: 0.15rem 0;\n" ∷ "  }\n"
    ∷ "  .label {\n" ∷ "    color: #888;\n" ∷ "    display: inline-block;\n"
    ∷ "    min-width: 110px;\n" ∷ "  }\n" ∷ "  .dim { color: #555; font-style: italic; }\n"
    ∷ "  .tag {\n" ∷ "    display: inline-block;\n" ∷ "    background: rgba(78,204,163,0.15);\n"
    ∷ "    color: #4ecca3;\n" ∷ "    padding: 0.1rem 0.5rem;\n" ∷ "    border-radius: 4px;\n"
    ∷ "    font-size: 0.82rem;\n" ∷ "    margin: 0.1rem 0.2rem 0.1rem 0;\n" ∷ "  }\n"
    ∷ "  .tag.deny {\n" ∷ "    background: rgba(252,81,133,0.15);\n" ∷ "    color: #fc5185;\n"
    ∷ "  }\n" ∷ "  .soul {\n" ∷ "    margin-top: 0.4rem;\n" ∷ "    padding: 0.6rem 0.8rem;\n"
    ∷ "    background: rgba(15,52,96,0.5);\n" ∷ "    border-left: 3px solid #0f3460;\n"
    ∷ "    border-radius: 0 4px 4px 0;\n" ∷ "    font-size: 0.85rem;\n" ∷ "    color: #aaa;\n"
    ∷ "  }\n" ∷ "\n" ∷ []

-- Lines of the page: the style of the explanation.
unfoldable pub flow_style_lines : List String
flow_style_lines =
    "  /* How it works */\n" ∷ "  .how-it-works {\n" ∷ "    background: #16213e;\n"
    ∷ "    border: 1px solid #0f3460;\n" ∷ "    border-radius: 8px;\n"
    ∷ "    padding: 1.2rem 1.5rem;\n" ∷ "    margin-top: 1rem;\n" ∷ "  }\n"
    ∷ "  .how-it-works p {\n" ∷ "    margin: 0.6rem 0;\n" ∷ "    font-size: 0.92rem;\n" ∷ "  }\n"
    ∷ "  .how-it-works .arrow-flow {\n" ∷ "    display: flex;\n" ∷ "    flex-wrap: wrap;\n"
    ∷ "    align-items: center;\n" ∷ "    gap: 0.5rem;\n" ∷ "    margin: 1rem 0;\n"
    ∷ "    font-size: 0.88rem;\n" ∷ "  }\n" ∷ "  .how-it-works .step {\n"
    ∷ "    background: #0f3460;\n" ∷ "    padding: 0.4rem 0.8rem;\n" ∷ "    border-radius: 6px;\n"
    ∷ "    white-space: nowrap;\n" ∷ "  }\n" ∷ "  .how-it-works .arrow {\n"
    ∷ "    color: #4ecca3;\n" ∷ "    font-weight: 700;\n" ∷ "  }\n" ∷ "  pre.yaml {\n"
    ∷ "    background: #111;\n" ∷ "    border: 1px solid #333;\n" ∷ "    border-radius: 6px;\n"
    ∷ "    padding: 1rem;\n" ∷ "    overflow-x: auto;\n"
    ∷ "    font-family: \"JetBrains Mono\", \"Fira Code\", \"Cascadia Code\", Consolas, monospace;\n"
    ∷ "    font-size: 0.82rem;\n" ∷ "    line-height: 1.5;\n" ∷ "    color: #c8d6e5;\n"
    ∷ "    margin: 0.8rem 0;\n" ∷ "  }\n" ∷ "</style>\n" ∷ "</head>\n" ∷ "<body>\n" ∷ "\n"
    ∷ "<h1>Clawbernetes Fleet Configuration</h1>\n"
    ∷ "<p class=\"subtitle\">Real-time overview of all managed AI agents in the cluster</p>\n"
    ∷ "\n" ∷ "<h2>Fleet Summary</h2>\n" ∷ "<div class=\"summary-grid\">\n"
    ∷ "  <div class=\"summary-card\">\n" ∷ []
