-- ===== src/Api/Server.antt =====
-- internal/api/server.go: the answers that gather the whole namespace.
use hackaway_repo.Base.{
  pos, ℕ, suc, ◌+◌, String, Option, none, some, List, [], ◌∷◌, ◌==◌, map, length, snippet, append,
  if◌then◌else◌,
}
use hackaway_repo.Kube.Objects.{Pvc}
use hackaway_repo.V1.Agent.{ClawAgent, A2APeer, pvc_suffix, resolved_reclaim_policy}
use hackaway_repo.V1.Channel.{ClawChannel, is_enabled}
use hackaway_repo.V1.Policy.{ClawPolicy}
use hackaway_repo.Client.{
  agent, channel, policy, pvc, Error, Client, M, pure, ◌>>=◌, attempt, reads,
}
use hackaway_repo.Agent.Volume.{key}
use hackaway_repo.Api.Types.{AgentResponse, ChannelResponse, FleetSummary}
use hackaway_repo.Api.Http.{Writer, agents, channels, summary, write_json, http_error}

abbrev peer_name : A2APeer → String
peer_name p = p.name

-- The limits and the denied tools, if a policy is read.
unfoldable pub with_limits : Option ClawPolicy → AgentResponse → AgentResponse
with_limits none r = r
with_limits (some pol) r = record r {
  budget_daily = pol.spec.budget.daily;
  budget_monthly = pol.spec.budget.monthly;
  tool_deny = pol.spec.tool_policy.deny;
}

unfoldable pub agent_response : ClawAgent → AgentResponse
agent_response a = record {
  name = a.meta.name;
  phase = a.status.phase;
  pod_name = a.status.pod_name;
  provider = a.spec.model.provider;
  model = a.spec.model.name;
  soul = snippet 150 a.spec.identity.soul;
  channels = a.spec.channels;
  workspace_pvc = a.status.workspace_pvc;
  workspace_mode = a.spec.workspace.mode;
  reclaim_policy = resolved_reclaim_policy a.spec.workspace;
  a2a_enabled = a.spec.a2a.enabled;
  a2a_peers = map peer_name a.spec.a2a.peers;
  a2a_skills = a.spec.a2a.skills;
  budget_daily = pos 0;
  budget_monthly = pos 0;
  tool_deny = [];
  labels = a.meta.labels;
}

unfoldable pub channel_response : ClawChannel → ChannelResponse
channel_response ch = record {
  name = ch.meta.name;
  type = ch.spec.type;
  enabled = is_enabled ch.spec;
  credentials_secret = ch.spec.credentials_secret;
  config = ch.spec.config;
}

unfoldable pub running_agents : List ClawAgent → ℕ
running_agents [] = 0
running_agents (a ∷ rest) =
    let n = running_agents rest in if a.status.phase == "Running" then suc n else n

unfoldable pub a2a_connections : List ClawAgent → ℕ
a2a_connections [] = 0
a2a_connections (a ∷ rest) = length a.spec.a2a.peers + a2a_connections rest

unfoldable pub fleet_summary : List ClawAgent → List ClawChannel → FleetSummary
unfolding running_agents a2a_connections
fleet_summary xs chs = record {
  total_agents = length xs;
  running_agents = running_agents xs;
  total_channels = length chs;
  a2a_connections = a2a_connections xs;
}

module _ (c : Client) (error_text : Error → String) (namespace : String) where
  open c use {State, get, list}

  -- The policy of an agent. Any error of the read counts xs none.
  unfoldable pub limits_of : ClawAgent → M State (Option ClawPolicy)
  limits_of a =
      if a.spec.policy == ""
      then pure none
      else attempt (reads (get policy (key a.spec.policy namespace))) (λ pol. pure (some pol))
          λ _. pure none

  unfoldable pub agent_responses : List ClawAgent → M State (List AgentResponse)
  unfolding limits_of
  agent_responses [] = pure []
  agent_responses (a ∷ rest) = do
    pol ← limits_of a
    others ← agent_responses rest
    pure (with_limits pol (agent_response a) ∷ others)

  abbrev fails : Writer → Error → M State Writer
  fails w e = pure (http_error (error_text e) 500 w)

  unfoldable pub handle_agents : Writer → M State Writer
  unfolding agent_responses
  handle_agents w =
      attempt (reads (list agent namespace))
        (λ xs. agent_responses xs >>= λ rs. pure (write_json (agents rs) w)) (fails w)

  unfoldable pub handle_channels : Writer → M State Writer
  handle_channels w =
      attempt (reads (list channel namespace))
        (λ chs. pure (write_json (channels (map channel_response chs)) w)) (fails w)

  unfoldable pub handle_summary : Writer → M State Writer
  unfolding fleet_summary
  handle_summary w =
      attempt (reads (list agent namespace))
        (λ xs.
          attempt (reads (list channel namespace))
            (λ chs. pure (write_json (summary (fleet_summary xs chs)) w)) (fails w))
        (fails w)

-- pvc.Status.Phase
module _ (c : Client) (phase_of : Pvc → String) (namespace : String) where
  open c use {State, get}

  -- The name and the phase of an agent's claim, none if it cannot be read.
  unfoldable pub get_pvc_info : String → M State (Option (List (String × String)))
  get_pvc_info agent_name =
      attempt (reads (get pvc (key (append agent_name pvc_suffix) namespace)))
        (λ p. pure (some (("name", p.meta.name) ∷ ("status", phase_of p) ∷ []))) λ _. pure none
