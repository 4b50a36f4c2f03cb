-- ===== src/Harness/OpenClaw/Providers.antt =====
-- internal/harness/openclaw.go, `BuildConfig`: the gateway section, the agents, telemetry, the model
-- providers and the channels.
use hackaway_repo.Base.{
  ℤ, String, Bool, true, false, none, some, List, [], ◌∷◌, insert, ◌==◌, ◌&&◌, ◌||◌, not, concat,
  decimal, to_upper, replace_all, if◌then◌else◌,
}
use hackaway_repo.V1.Agent.{AgentModelSpec, TelemetryCaptureSpec}
use hackaway_repo.V1.Channel.{
  ClawChannel, channels_with_bot_token, channels_with_app_token, flag, entry, provider_api_formats,
  provider_base_urls,
}
use hackaway_repo.Harness.Json.{Json, bool, int, float, str, object, array, strings, num, Encoding}
use hackaway_repo.Harness.OpenClaw.Policy.{Map, put_if, or_default}

-- strings.ToUpper(strings.ReplaceAll(name, "-", "_"))
unfoldable pub env_name : String → String
env_name name = to_upper (replace_all b'-' "_" name)

-- fmt.Sprintf("${%s_API_KEY}", …)
unfoldable pub api_key_placeholder : String → String
api_key_placeholder provider = concat ("${" ∷ env_name provider ∷ "_API_KEY}" ∷ [])

unfoldable pub gateway_section : ℤ → String → Map
gateway_section port name =
    ("port", int port)
    ∷ ("bind", str "lan")
    ∷ (
      "http",
      object (
          (
            "endpoints",
            object (
                ("chatCompletions", object (("enabled", bool true) ∷ []))
                ∷ ("responses", object (("enabled", bool true) ∷ []))
                ∷ []),
          )
          ∷ []),
    )
    ∷ (
      "controlUi",
      object (
          (
            "allowedOrigins",
            strings (
                concat ("http://" ∷ name ∷ ".local" ∷ [])
                ∷ concat ("http://" ∷ name ∷ ".local:8080" ∷ [])
                ∷ concat ("http://localhost:" ∷ decimal port ∷ [])
                ∷ concat ("http://127.0.0.1:" ∷ decimal port ∷ [])
                ∷ []),
          )
          ∷ []),
    )
    ∷ []

-- The agent defaults, with the model where both its provider and its name are given.
unfoldable pub agent_defaults : String → AgentModelSpec → Map
agent_defaults workspace_path model =
    put_if (not (model.provider == "") && not (model.name == "")) "model"
      (object (("primary", str (concat (model.provider ∷ "/" ∷ model.name ∷ []))) ∷ []))
      (("workspace", str workspace_path)
        ∷ (
          "heartbeat",
          object (
              ("every", str "5m")
              ∷ ("lightContext", bool true)
              ∷ ("isolatedSession", bool true)
              ∷ ("ackMaxChars", num 300)
              ∷ []),
        )
        ∷ [])

unfoldable pub agents_section : String → String → AgentModelSpec → Map
agents_section workspace_path name model =
    ("defaults", object (agent_defaults workspace_path model))
    ∷ ("list", array (object (("id", str name) ∷ ("default", bool true) ∷ []) ∷ []))
    ∷ []

capture_map : Bool → Bool → Bool → Bool → Bool → Map
capture_map a b c d e =
    ("inputMessages", bool a)
    ∷ ("outputMessages", bool b)
    ∷ ("systemInstructions", bool c)
    ∷ ("toolDefinitions", bool d)
    ∷ ("toolContent", bool e)
    ∷ []

-- Everything is captured unless the spec sets a field.
unfoldable pub capture_content : TelemetryCaptureSpec → Map
unfolding capture_map
capture_content tc =
    if tc.input_messages || tc.output_messages || tc.system_instructions || tc.tool_definitions
      || tc.tool_content
    then capture_map tc.input_messages tc.output_messages tc.system_instructions tc.tool_definitions
        tc.tool_content
    else capture_map true true true true true

put_sample_rate : Encoding → String → Map → Map
put_sample_rate e s m =
    if s == ""
    then m
    else elim (e.parse_float s) [ none ↦ m | some f ↦ insert "sampleRate" (float f) m ]

unfoldable pub diagnostics_section : Encoding → String → String → TelemetryCaptureSpec → Map
unfolding put_sample_rate
diagnostics_section e otlp_endpoint name tc =
    ("enabled", bool true)
    ∷ (
      "otel",
      object (
          put_sample_rate e tc.sample_rate (
            ("enabled", bool true)
            ∷ ("endpoint", str otlp_endpoint)
            ∷ ("protocol", str "http/protobuf")
            ∷ ("serviceName", str name)
            ∷ ("traces", bool true)
            ∷ ("metrics", bool true)
            ∷ ("logs", bool true)
            ∷ ("sampleRate", float "1")
            ∷ ("captureContent", object (capture_content tc))
            ∷ [])),
    )
    ∷ []

gateway_model : String → String → Bool → Json → Json
gateway_model id name reasoning max_tokens = object (
    ("id", str id)
    ∷ ("name", str name)
    ∷ ("reasoning", bool reasoning)
    ∷ ("input", strings ("text" ∷ []))
    ∷ ("contextWindow", num 200000)
    ∷ ("maxTokens", max_tokens)
    ∷ [])

gateway_provider : String → Json
unfolding gateway_model
gateway_provider gateway_url = object (
    ("baseUrl", str gateway_url)
    ∷ ("api", str "anthropic-messages")
    ∷ ("apiKey", str "gateway-managed")
    ∷ (
      "models",
      array (
          gateway_model "claude-sonnet-4-6" "Claude Sonnet 4.6 (via gateway)" true (num 16384)
          ∷ gateway_model "claude-haiku-4-5" "Claude Haiku 4.5 (via gateway)" false (num 8192)
          ∷ []),
    )
    ∷ [])

direct_provider : String → Json
direct_provider name = object (
    ("baseUrl", str (or_default (entry provider_base_urls name) "https://api.openai.com/v1"))
    ∷ ("api", str (or_default (entry provider_api_formats name) "openai-responses"))
    ∷ ("apiKey", str (api_key_placeholder name))
    ∷ ("models", array [])
    ∷ [])

unfoldable pub providers : String → String → Map
unfolding gateway_provider direct_provider
providers gateway_url provider =
    put_if (not (provider == "")) provider (direct_provider provider)
      (put_if (not (gateway_url == "")) "gateway-anthropic" (gateway_provider gateway_url) [])

-- `for k, v := range ch.Spec.Config { chCfg[k] = v }`
merge_config : List (String × String) → Map → Map
merge_config [] m = m
merge_config ((k, v) ∷ config) m = merge_config config (insert k (str v) m)

-- fmt.Sprintf("${%s_BOT_TOKEN}", …) and its like
unfoldable pub token_placeholder : String → String → String
token_placeholder channel_type suffix = concat ("${" ∷ to_upper channel_type ∷ suffix ∷ "}" ∷ [])

unfoldable pub channel_config : ClawChannel → Map
unfolding merge_config
channel_config ch = merge_config ch.spec.config (
    put_if (flag channels_with_app_token ch.spec.type) "appToken"
      (str (token_placeholder ch.spec.type "_APP_TOKEN"))
      (put_if (flag channels_with_bot_token ch.spec.type) "botToken"
        (str (token_placeholder ch.spec.type "_BOT_TOKEN")) (("enabled", bool true) ∷ [])))

unfoldable pub channels_section : List ClawChannel → Map → Map
channels_section [] m = m
channels_section (ch ∷ chs) m =
    channels_section chs (insert ch.spec.type (object (channel_config ch)) m)
