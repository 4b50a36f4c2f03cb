-- ===== src/Harness/OpenClaw/Plugins.antt =====
-- internal/harness/openclaw.go, `BuildConfig`: the plugins of the agent, their configuration and the
-- list of those that may run.
use hackaway_repo.Base.{
  String, true, List, [], ◌∷◌, ◌++◌, map, insert, ◌==◌, not, nonempty, append, concat, decimal,
  if◌then◌else◌,
}
use hackaway_repo.V1.Agent.{A2ASpec, A2APeer, resolved_port}
use hackaway_repo.V1.Channel.{ClawChannel}
use hackaway_repo.Harness.Json.{Json, bool, int, str, object, array, strings}
use hackaway_repo.Harness.OpenClaw.Policy.{Map, put_if, or_default}
use hackaway_repo.Harness.OpenClaw.Providers.{env_name}

unfoldable pub peer_placeholder : String → String
peer_placeholder name = concat ("${PEER_" ∷ env_name name ∷ "_TOKEN}" ∷ [])

peer_auth : A2APeer → Json
peer_auth p = object (("type", str "bearer") ∷ ("token", str (peer_placeholder p.name)) ∷ [])

unfoldable pub peer_entry : A2APeer → Map
unfolding peer_auth
peer_entry p =
    put_if (not (p.credentials_secret == "")) "auth" (peer_auth p)
      (("name", str p.name) ∷ ("agentCardUrl", str p.agent_card_url) ∷ [])

skill_entry : String → String → String → Json
skill_entry id name description =
    object (("id", str id) ∷ ("name", str name) ∷ ("description", str description) ∷ [])

a2a_skills : List String → List Json
unfolding skill_entry
a2a_skills [] = skill_entry "chat" "chat" "Chat bridge" ∷ []
a2a_skills (s ∷ ss) = map (λ t. skill_entry t t t) (s ∷ ss)

agent_card : A2ASpec → String → String → Json
unfolding a2a_skills
agent_card a2a name ns = object (
    ("name", str (or_default a2a.agent_card_name name))
    ∷ (
      "description",
      str (or_default a2a.agent_card_description (concat ("Clawbernetes agent: " ∷ name ∷ []))),
    )
    ∷ (
      "url",
      str (
          concat (
            "http://"
            ∷ name
            ∷ "."
            ∷ ns
            ∷ ".svc.cluster.local:"
            ∷ decimal (resolved_port a2a)
            ∷ "/a2a/jsonrpc"
            ∷ [])),
    )
    ∷ ("skills", array (a2a_skills a2a.skills))
    ∷ [])

security : Json
security = object (("inboundAuth", str "bearer") ∷ ("token", str "${A2A_TOKEN}") ∷ [])

unfoldable pub a2a_config : A2ASpec → String → String → Map
unfolding agent_card security
a2a_config a2a name ns =
    put_if (nonempty a2a.peers) "peers" (array (map (λ p. object (peer_entry p)) a2a.peers)) (
      put_if (not (a2a.security_token_secret == "")) "security" security (
        ("agentCard", agent_card a2a name ns)
        ∷ ("server", object (("host", str "0.0.0.0") ∷ ("port", int (resolved_port a2a)) ∷ []))
        ∷ ("routing", object (("defaultAgentId", str name) ∷ []))
        ∷ []))

abbrev pub enabled_entry : Json
enabled_entry = object (("enabled", bool true) ∷ [])

abbrev pub configured_entry : Map → Json
configured_entry config = object (("enabled", bool true) ∷ ("config", object config) ∷ [])

-- for _, ch := range channels { pluginEntries[ch.Spec.Type] = … }
unfoldable pub channel_plugins : List ClawChannel → Map → Map
channel_plugins [] m = m
channel_plugins (ch ∷ chs) m = channel_plugins chs (insert ch.spec.type enabled_entry m)

unfoldable pub channel_types : List ClawChannel → List String
channel_types [] = []
channel_types (ch ∷ chs) = ch.spec.type ∷ channel_types chs

-- plugins.entries
unfoldable pub plugin_entries : Map → String → List ClawChannel → A2ASpec → String → String → Map
plugin_entries observeclaw otlp_endpoint channels a2a name ns =
    put_if a2a.enabled "a2a-gateway" (configured_entry (a2a_config a2a name ns)) (
      channel_plugins channels (
        put_if (not (otlp_endpoint == "")) "diagnostics-otel" enabled_entry
          (("observeclaw", configured_entry observeclaw) ∷ [])))

-- plugins.allow
unfoldable pub plugin_allow : List ClawChannel → A2ASpec → List String
unfolding channel_types
plugin_allow channels a2a =
    if a2a.enabled
    then ("observeclaw" ∷ channel_types channels) ++ "a2a-gateway" ∷ []
    else "observeclaw" ∷ channel_types channels

unfoldable pub plugins_section :
    Map → String → List ClawChannel → A2ASpec → String → String → String → Map
plugins_section observeclaw otlp_endpoint channels a2a name ns workspace_path =
    put_if a2a.enabled "load"
      (object (("paths", strings (append workspace_path "/plugins/a2a-gateway" ∷ [])) ∷ []))
      (("enabled", bool true)
        ∷ ("entries", object (plugin_entries observeclaw otlp_endpoint channels a2a name ns))
        ∷ ("allow", strings (plugin_allow channels a2a))
        ∷ [])
