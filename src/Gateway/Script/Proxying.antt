-- ===== src/Gateway/Script/Proxying.antt =====
-- internal/controller/clawgateway_controller.go, `gatewayServerScript`: the lines of the server,
-- the proxy of messages.
use hackaway_repo.Base.{String, List, [], ◌∷◌}

unfoldable pub proxying_lines : List String
proxying_lines =
    "_FORWARD_HEADERS = (\"anthropic-version\", \"authorization\", \"anthropic-beta\")\n" ∷ "\n"
    ∷ "# Server-side API key injection -- the agent never sees or sends the key.\n"
    ∷ "_SERVER_API_KEY = os.environ.get(\"ANTHROPIC_API_KEY\", \"\")\n" ∷ "\n" ∷ "\n"
    ∷ "@app.api_route(\"/v1/messages\", methods=[\"POST\"])\n"
    ∷ "async def proxy_messages(request: Request):\n" ∷ "    body = await request.json()\n" ∷ "\n"
    ∷ "    original_messages = body.get(\"messages\", [])\n"
    ∷ "    cleaned_messages, redactions = redact_messages(original_messages)\n"
    ∷ "    body[\"messages\"] = cleaned_messages\n" ∷ "\n" ∷ "    if redactions:\n"
    ∷ "        print(f\"[redact] {len(redactions)} PII match(es):\")\n"
    ∷ "        for r in redactions:\n"
    ∷ "            print(f\"  {r['original']} -> {r['replacement']}\")\n" ∷ "\n"
    ∷ "    headers = {\"Content-Type\": \"application/json\"}\n" ∷ "    if _SERVER_API_KEY:\n"
    ∷ "        headers[\"x-api-key\"] = _SERVER_API_KEY\n" ∷ "    for key in _FORWARD_HEADERS:\n"
    ∷ "        val = request.headers.get(key)\n" ∷ "        if val:\n"
    ∷ "            headers[key] = val\n" ∷ "\n" ∷ "    is_stream = body.get(\"stream\", False)\n"
    ∷ "\n" ∷ "    if is_stream:\n"
    ∷ "        stream_headers = {**headers, \"Accept-Encoding\": \"identity\"}\n"
    ∷ "        client = httpx.AsyncClient(timeout=120.0)\n"
    ∷ "        req = client.build_request(\n" ∷ "            \"POST\",\n"
    ∷ "            f\"{UPSTREAM_BASE}/v1/messages\",\n" ∷ "            json=body,\n"
    ∷ "            headers=stream_headers,\n" ∷ "        )\n"
    ∷ "        resp = await client.send(req, stream=True)\n" ∷ "\n"
    ∷ "        response_headers = {}\n"
    ∷ "        for key in (\"content-type\", \"x-request-id\", \"content-encoding\"):\n"
    ∷ "            val = resp.headers.get(key)\n" ∷ "            if val:\n"
    ∷ "                response_headers[key] = val\n" ∷ "\n" ∷ "        async def passthrough():\n"
    ∷ "            try:\n" ∷ "                async for raw in resp.aiter_raw():\n"
    ∷ "                    yield raw\n" ∷ "            finally:\n"
    ∷ "                await resp.aclose()\n" ∷ "                await client.aclose()\n" ∷ "\n"
    ∷ "        return StreamingResponse(\n" ∷ "            passthrough(),\n"
    ∷ "            status_code=resp.status_code,\n" ∷ "            headers=response_headers,\n"
    ∷ "        )\n" ∷ "    else:\n"
    ∷ "        async with httpx.AsyncClient(timeout=120.0) as client:\n"
    ∷ "            resp = await client.post(\n"
    ∷ "                f\"{UPSTREAM_BASE}/v1/messages\",\n" ∷ "                json=body,\n"
    ∷ "                headers=headers,\n" ∷ "            )\n" ∷ "            return resp.json()\n"
    ∷ "\n" ∷ "\n" ∷ []
