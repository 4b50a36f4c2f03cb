-- ===== src/Agent/Deployment/Peers.antt =====
-- The tokens of an agent's peers: the configuration of OpenClaw (internal/harness/openclaw.go) and the
-- container of the agent, which are written apart, go by one variable.
use hackaway_repo.Base.{String, true, some, List, [], ◌∷◌, concat}
use hackaway_repo.Kube.Objects.{EnvVar}
use hackaway_repo.V1.Agent.{A2APeer}
use hackaway_repo.Harness.Json.{Json, str, object}
use hackaway_repo.Agent.Secrets.{peer_variable}

abbrev pub bearer : String → Json
bearer token = object (("type", str "bearer") ∷ ("token", str token) ∷ [])

-- ${...} around the name of a variable
abbrev pub reference : String → String
reference variable = concat ("${" ∷ variable ∷ "}" ∷ [])

-- The variable of a peer, which is taken from the peer's secret.
abbrev pub declared : A2APeer → EnvVar
declared p = record {
  name = peer_variable p.name;
  value = "";
  value_from =
      some (record { name = p.credentials_secret; key = "A2A_TOKEN"; is_optional = some true });
}
