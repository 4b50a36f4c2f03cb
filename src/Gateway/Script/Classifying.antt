-- ===== src/Gateway/Script/Classifying.antt =====
-- internal/controller/clawgateway_controller.go, `gatewayServerScript`: the lines of the server,
-- the classifier.
use hackaway_repo.Base.{String, List, [], ◌∷◌}

unfoldable pub classifying_lines : List String
classifying_lines =
    "_classifier = None\n" ∷ "\n" ∷ "\n"
    ∷ "def _load_classifier(model_id: str, labels: list[str]) -> dict:\n" ∷ "    import torch\n"
    ∷ "    from transformers import AutoModelForSequenceClassification, AutoTokenizer\n" ∷ "\n"
    ∷ "    print(f\"Loading classifier: {model_id}...\")\n" ∷ "    t = time.time()\n"
    ∷ "    tokenizer = AutoTokenizer.from_pretrained(model_id)\n"
    ∷ "    model = AutoModelForSequenceClassification.from_pretrained(model_id)\n"
    ∷ "    print(f\"Classifier loaded in {time.time() - t:.1f}s ({model_id}, labels: {labels})\")\n"
    ∷ "    return {\"tokenizer\": tokenizer, \"model\": model, \"labels\": labels, \"model_id\": model_id}\n"
    ∷ "\n" ∷ "\n" ∷ "class ClassifierMessage(BaseModel):\n" ∷ "    role: str\n"
    ∷ "    content: str\n" ∷ "\n" ∷ "\n" ∷ "class ClassifierRequest(BaseModel):\n"
    ∷ "    model: str = \"\"\n" ∷ "    messages: list[ClassifierMessage]\n"
    ∷ "    max_tokens: int = 50\n" ∷ "    temperature: float = 0\n" ∷ "\n" ∷ "\n"
    ∷ "@app.post(\"/v1/chat/completions\")\n"
    ∷ "async def chat_completions(req: ClassifierRequest):\n" ∷ "    import torch\n" ∷ "\n"
    ∷ "    if _classifier is None:\n" ∷ "        return JSONResponse(\n"
    ∷ "            status_code=503,\n"
    ∷ "            content={\"error\": \"Classifier not loaded. Start server without --no-classifier.\"},\n"
    ∷ "        )\n" ∷ "\n" ∷ "    tokenizer = _classifier[\"tokenizer\"]\n"
    ∷ "    model = _classifier[\"model\"]\n" ∷ "    labels = _classifier[\"labels\"]\n" ∷ "\n"
    ∷ "    text = req.messages[-1].content if req.messages else \"\"\n" ∷ "\n"
    ∷ "    start = time.time()\n"
    ∷ "    inputs = tokenizer(text, return_tensors=\"pt\", truncation=True, max_length=512)\n"
    ∷ "    with torch.no_grad():\n" ∷ "        outputs = model(**inputs)\n"
    ∷ "    probs = torch.softmax(outputs.logits, dim=1)[0].tolist()\n"
    ∷ "    prediction = torch.argmax(outputs.logits, dim=1).item()\n"
    ∷ "    label = labels[prediction] if prediction < len(labels) else f\"class_{prediction}\"\n"
    ∷ "    elapsed_ms = (time.time() - start) * 1000\n" ∷ "\n"
    ∷ "    prob_str = \" \".join(f\"{labels[i] if i < len(labels) else f'c{i}'}:{p:.2f}\" for i, p in enumerate(probs))\n"
    ∷ "    preview = text[:80] + \"...\" if len(text) > 80 else text\n"
    ∷ "    print(f\"[classify] [{label}] {prob_str} ({elapsed_ms:.0f}ms) | {preview}\")\n" ∷ "\n"
    ∷ "    return {\n" ∷ "        \"id\": \"cmpl-classifier\",\n"
    ∷ "        \"object\": \"chat.completion\",\n"
    ∷ "        \"model\": req.model or _classifier[\"model_id\"],\n" ∷ "        \"choices\": [\n"
    ∷ "            {\n" ∷ "                \"index\": 0,\n"
    ∷ "                \"message\": {\"role\": \"assistant\", \"content\": label},\n"
    ∷ "                \"finish_reason\": \"stop\",\n" ∷ "            }\n" ∷ "        ],\n"
    ∷ "        \"usage\": {\n" ∷ "            \"prompt_tokens\": len(inputs[\"input_ids\"][0]),\n"
    ∷ "            \"completion_tokens\": 1,\n"
    ∷ "            \"total_tokens\": len(inputs[\"input_ids\"][0]) + 1,\n" ∷ "        },\n"
    ∷ "    }\n" ∷ "\n" ∷ "\n" ∷ []
