-- ===== src/Gateway/Script/Redacting.antt =====
-- internal/controller/clawgateway_controller.go, `gatewayServerScript`: the lines of the server,
-- its imports, the patterns and the redaction.
use hackaway_repo.Base.{String, List, [], ◌∷◌}

unfoldable pub redacting_lines : List String
redacting_lines =
    "\"\"\"\n" ∷ "ObserveClaw Server — PII redaction proxy + optional local HF classifier.\n" ∷ "\n"
    ∷ "Endpoints:\n"
    ∷ "  POST /v1/messages          — PII-redacting proxy (strips PII, forwards to upstream)\n"
    ∷ "  POST /v1/chat/completions  — Local HuggingFace classifier (optional)\n"
    ∷ "  POST /config/patterns      — Push PII patterns from plugin config\n"
    ∷ "  GET  /health               — Health check\n" ∷ "\n"
    ∷ "The proxy reads the API key from the ANTHROPIC_API_KEY environment variable\n"
    ∷ "and injects it server-side. Agents never see or send the key.\n" ∷ "\"\"\"\n"
    ∷ "import argparse\n" ∷ "import os\n" ∷ "import re\n" ∷ "import time\n" ∷ "import threading\n"
    ∷ "\n" ∷ "import httpx\n" ∷ "import uvicorn\n" ∷ "from fastapi import FastAPI, Request\n"
    ∷ "from fastapi.responses import JSONResponse, StreamingResponse\n"
    ∷ "from pydantic import BaseModel\n" ∷ "\n" ∷ "app = FastAPI(title=\"ObserveClaw Server\")\n"
    ∷ "\n"
    ∷ "UPSTREAM_BASE = os.environ.get(\"UPSTREAM_BASE_URL\", \"https://api.anthropic.com\")\n"
    ∷ "\n" ∷ "_patterns_lock = threading.Lock()\n"
    ∷ "_pii_patterns: list[tuple[re.Pattern, str]] = []\n" ∷ "\n" ∷ "\n"
    ∷ "def _compile_patterns(raw: list[dict]) -> list[tuple[re.Pattern, str]]:\n"
    ∷ "    compiled = []\n" ∷ "    for entry in raw:\n" ∷ "        try:\n"
    ∷ "            compiled.append((re.compile(entry[\"pattern\"]), entry.get(\"replacement\", \"[REDACTED]\")))\n"
    ∷ "        except re.error as e:\n"
    ∷ "            print(f\"[config] bad pattern {entry.get('pattern')!r}: {e}\")\n"
    ∷ "    return compiled\n" ∷ "\n" ∷ "\n" ∷ "class PatternEntry(BaseModel):\n"
    ∷ "    pattern: str\n" ∷ "    replacement: str = \"[REDACTED]\"\n" ∷ "\n" ∷ "\n"
    ∷ "class PatternsConfig(BaseModel):\n" ∷ "    patterns: list[PatternEntry]\n" ∷ "\n" ∷ "\n"
    ∷ "@app.post(\"/config/patterns\")\n" ∷ "async def update_patterns(config: PatternsConfig):\n"
    ∷ "    global _pii_patterns\n" ∷ "    raw = [p.model_dump() for p in config.patterns]\n"
    ∷ "    compiled = _compile_patterns(raw)\n" ∷ "    with _patterns_lock:\n"
    ∷ "        _pii_patterns = compiled\n"
    ∷ "    print(f\"[config] loaded {len(compiled)} PII pattern(s)\")\n"
    ∷ "    for p, r in compiled:\n" ∷ "        print(f\"  {p.pattern} -> {r}\")\n"
    ∷ "    return {\"status\": \"ok\", \"patterns\": len(compiled)}\n" ∷ "\n" ∷ "\n"
    ∷ "def redact(text: str) -> tuple[str, list[dict]]:\n" ∷ "    with _patterns_lock:\n"
    ∷ "        patterns = list(_pii_patterns)\n" ∷ "    redactions = []\n"
    ∷ "    for pattern, replacement in patterns:\n"
    ∷ "        for match in pattern.finditer(text):\n" ∷ "            redactions.append({\n"
    ∷ "                \"original\": match.group(),\n"
    ∷ "                \"replacement\": replacement,\n"
    ∷ "                \"pattern\": pattern.pattern,\n" ∷ "            })\n"
    ∷ "        text = pattern.sub(replacement, text)\n" ∷ "    return text, redactions\n" ∷ "\n"
    ∷ "\n" ∷ "def redact_messages(messages: list[dict]) -> tuple[list[dict], list[dict]]:\n"
    ∷ "    all_redactions = []\n" ∷ "    cleaned = []\n" ∷ "    for msg in messages:\n"
    ∷ "        if msg.get(\"role\") == \"user\":\n"
    ∷ "            content = msg.get(\"content\", \"\")\n"
    ∷ "            if isinstance(content, str):\n"
    ∷ "                redacted, redactions = redact(content)\n"
    ∷ "                all_redactions.extend(redactions)\n"
    ∷ "                cleaned.append({**msg, \"content\": redacted})\n"
    ∷ "            elif isinstance(content, list):\n" ∷ "                new_blocks = []\n"
    ∷ "                for block in content:\n"
    ∷ "                    if isinstance(block, dict) and block.get(\"type\") == \"text\":\n"
    ∷ "                        redacted, redactions = redact(block.get(\"text\", \"\"))\n"
    ∷ "                        all_redactions.extend(redactions)\n"
    ∷ "                        new_blocks.append({**block, \"text\": redacted})\n"
    ∷ "                    else:\n" ∷ "                        new_blocks.append(block)\n"
    ∷ "                cleaned.append({**msg, \"content\": new_blocks})\n" ∷ "            else:\n"
    ∷ "                cleaned.append(msg)\n" ∷ "        else:\n"
    ∷ "            cleaned.append(msg)\n" ∷ "    return cleaned, all_redactions\n" ∷ "\n" ∷ "\n"
    ∷ []
