-- ===== src/Agent/Secrets.antt =====
-- internal/controller/clawagent_controller.go, `agentDeployment`: the secrets that become environment
-- variables of the agent.
pub mod Laws
use hackaway_repo.Base.{
  String, Bool, true, false, Option, none, some, List, [], ◌∷◌, ◌++◌, ◌==◌, ◌||◌, ◌&&◌, not,
  contains, insert, lookup, concat, if◌then◌else◌,
}
use hackaway_repo.Kube.Objects.{EnvVar, EnvFromSource}
use hackaway_repo.V1.Agent.{ClawAgent, A2ASpec, A2APeer}
use hackaway_repo.V1.Channel.{ClawChannel, default_provider_api_keys_secret, flag}
use hackaway_repo.Harness.OpenClaw.Providers.{env_name}

-- The map of what was injected, and the sources in order.
pub record Injected : Type 0 where
  pub seen : List (String × Bool)
  pub env_from : List EnvFromSource

abbrev pub nothing_injected : Injected
nothing_injected = record { seen = []; env_from = [] }

-- The closure `injectSecret`.
unfoldable pub inject_secret : String → Injected → Injected
inject_secret name i = if name == "" || flag i.seen name then i else record {
  seen = insert name true i.seen;
  env_from = i.env_from ++ record { secret_ref = name; is_optional = some true } ∷ [];
}

unfoldable pub inject_channels : List ClawChannel → Injected → Injected
inject_channels [] i = i
inject_channels (ch ∷ chs) i = inject_channels chs (inject_secret ch.spec.credentials_secret i)

unfoldable pub inject_provider : String → String → Injected → Injected
inject_provider provider gateway_url i =
    if not (provider == "") && gateway_url == ""
    then inject_secret default_provider_api_keys_secret i
    else i

unfoldable pub inject_a2a : A2ASpec → Injected → Injected
inject_a2a a2a i = if a2a.enabled then inject_secret a2a.security_token_secret i else i

-- EnvFrom of the main container
unfoldable pub injected_secrets : ClawAgent → String → List ClawChannel → Injected
injected_secrets agent gateway_url channels = inject_a2a agent.spec.a2a (
    inject_channels channels
      (inject_provider agent.spec.model.provider gateway_url nothing_injected))

-- `envName` of a peer
unfoldable pub peer_variable : String → String
peer_variable name = concat ("PEER_" ∷ env_name name ∷ "_TOKEN" ∷ [])

-- A variable for each peer with credentials
unfoldable pub peer_env : List A2APeer → List EnvVar
peer_env [] = []
peer_env (p ∷ ps) =
    let rest = peer_env ps in
    if p.credentials_secret == ""
    then rest
    else record {
      name = peer_variable p.name;
      value = "";
      value_from =
          some (record { name = p.credentials_secret; key = "A2A_TOKEN"; is_optional = some true });
    }
      ∷ rest
