-- ===== src/Gateway/Script/Starting.antt =====
-- internal/controller/clawgateway_controller.go, `gatewayServerScript`: the lines of the server,
-- health and start-up.
use hackaway_repo.Base.{String, List, [], ◌∷◌}

unfoldable pub starting_lines : List String
starting_lines =
    "@app.get(\"/health\")\n" ∷ "async def health():\n" ∷ "    with _patterns_lock:\n"
    ∷ "        pattern_count = len(_pii_patterns)\n" ∷ "    result: dict = {\n"
    ∷ "        \"status\": \"ok\",\n" ∷ "        \"services\": {\n"
    ∷ "            \"redaction_proxy\": {\n" ∷ "                \"pii_patterns\": pattern_count,\n"
    ∷ "                \"upstream\": UPSTREAM_BASE,\n" ∷ "            },\n" ∷ "        },\n"
    ∷ "    }\n" ∷ "    if _classifier is not None:\n"
    ∷ "        result[\"services\"][\"classifier\"] = {\n"
    ∷ "            \"model\": _classifier[\"model_id\"],\n"
    ∷ "            \"labels\": _classifier[\"labels\"],\n" ∷ "        }\n" ∷ "    else:\n"
    ∷ "        result[\"services\"][\"classifier\"] = {\"status\": \"disabled\"}\n"
    ∷ "    return result\n" ∷ "\n" ∷ "\n"
    ∷ "DEFAULT_CLASSIFIER_MODEL = \"Shaheer001/Query-Complexity-Classifier\"\n"
    ∷ "DEFAULT_CLASSIFIER_LABELS = \"simple,medium,complex\"\n" ∷ "\n"
    ∷ "if __name__ == \"__main__\":\n"
    ∷ "    parser = argparse.ArgumentParser(description=\"ObserveClaw Server\")\n"
    ∷ "    parser.add_argument(\"--port\", type=int, default=int(os.environ.get(\"GATEWAY_PORT\", \"8443\")))\n"
    ∷ "    parser.add_argument(\"--host\", default=\"0.0.0.0\")\n" ∷ "    parser.add_argument(\n"
    ∷ "        \"--upstream\",\n"
    ∷ "        default=os.environ.get(\"UPSTREAM_BASE_URL\", \"https://api.anthropic.com\"),\n"
    ∷ "        help=\"Upstream LLM base URL\",\n" ∷ "    )\n" ∷ "    parser.add_argument(\n"
    ∷ "        \"--classifier-model\",\n"
    ∷ "        default=os.environ.get(\"CLASSIFIER_MODEL\", DEFAULT_CLASSIFIER_MODEL),\n"
    ∷ "        help=f\"HuggingFace model ID (default: {DEFAULT_CLASSIFIER_MODEL})\",\n" ∷ "    )\n"
    ∷ "    parser.add_argument(\n" ∷ "        \"--classifier-labels\",\n"
    ∷ "        default=os.environ.get(\"CLASSIFIER_LABELS\", DEFAULT_CLASSIFIER_LABELS),\n"
    ∷ "        help=f\"Comma-separated labels (default: {DEFAULT_CLASSIFIER_LABELS})\",\n"
    ∷ "    )\n" ∷ "    parser.add_argument(\n" ∷ "        \"--no-classifier\",\n"
    ∷ "        action=\"store_true\",\n"
    ∷ "        help=\"Skip classifier model loading (PII proxy only, fast startup)\",\n" ∷ "    )\n"
    ∷ "    args = parser.parse_args()\n" ∷ "\n" ∷ "    UPSTREAM_BASE = args.upstream\n" ∷ "\n"
    ∷ "    if not args.no_classifier:\n"
    ∷ "        labels = [l.strip() for l in args.classifier_labels.split(\",\")]\n"
    ∷ "        _classifier = _load_classifier(args.classifier_model, labels)\n" ∷ "\n"
    ∷ "    print(f\"ObserveClaw Server listening on http://{args.host}:{args.port}\")\n"
    ∷ "    print(f\"  /v1/messages         -> PII redaction proxy ({0} patterns) -> {UPSTREAM_BASE}\")\n"
    ∷ "    print(f\"  /config/patterns     -> push PII patterns from plugin\")\n"
    ∷ "    if _classifier:\n"
    ∷ "        print(f\"  /v1/chat/completions -> classifier ({_classifier['model_id']})\")\n"
    ∷ "    else:\n" ∷ "        print(f\"  /v1/chat/completions -> disabled\")\n"
    ∷ "    uvicorn.run(app, host=args.host, port=args.port, log_level=\"warning\")\n" ∷ []
