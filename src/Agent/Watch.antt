-- ===== src/Agent/Watch.antt =====
-- internal/controller/clawagent_controller.go: which agents are reconciled when a resource changes.
pub mod Laws
pub mod Exact
pub mod Complete
use hackaway_repo.Base.{Bool, List, [], ◌∷◌, ◌==◌, contains, if◌then◌else◌}
use hackaway_repo.Kube.Objects.{ObjectMeta}
use hackaway_repo.V1.Agent.{ClawAgent, ClawAgentSpec}
use hackaway_repo.Client.{
  Kind, config_map, deployment, service, pvc, pod, agent, channel, gateway, policy, skill_set,
  observability, Key, key_of, Result, ok, err, panic, Client,
}

-- The keys of the agents whose spec matches.
unfoldable pub requests_of : (ClawAgentSpec → Bool) → List ClawAgent → List Key
requests_of match [] = []
requests_of match (a ∷ agents) =
    let rest = requests_of match agents in if match a.spec then key_of agent a ∷ rest else rest

-- An error of the list is swallowed.
unfoldable pub find_agents_referencing_field :
    (c : Client) → ObjectMeta → (ClawAgentSpec → Bool) → c.State → Result (List Key)
unfolding requests_of
find_agents_referencing_field c obj match s = elim (c.list agent obj.namespace s) [
  | ok agents ↦ ok (requests_of match agents)
  | err _ ↦ ok []
  | panic ↦ panic
]

module _ (c : Client) (obj : ObjectMeta) where
  unfoldable pub find_agents_for_policy : c.State → Result (List Key)
  unfolding find_agents_referencing_field
  find_agents_for_policy = find_agents_referencing_field c obj λ s. s.policy == obj.name

  unfoldable pub find_agents_for_skill_set : c.State → Result (List Key)
  unfolding find_agents_referencing_field
  find_agents_for_skill_set = find_agents_referencing_field c obj λ s. s.skill_set == obj.name

  unfoldable pub find_agents_for_channel : c.State → Result (List Key)
  unfolding find_agents_referencing_field
  find_agents_for_channel = find_agents_referencing_field c obj λ s. contains obj.name s.channels

  unfoldable pub find_agents_for_gateway : c.State → Result (List Key)
  unfolding find_agents_referencing_field
  find_agents_for_gateway = find_agents_referencing_field c obj λ s. s.gateway == obj.name

  unfoldable pub find_agents_for_observability : c.State → Result (List Key)
  unfolding find_agents_referencing_field
  find_agents_for_observability =
      find_agents_referencing_field c obj λ s. s.observability == obj.name

-- How an event of the manager's cache becomes requests: the agent itself, the agent that owns the
-- object, or what a function of the controller maps the object to.
pub data Source (S : Type 0) : Type 0 where
  own owner ignored : Source S
  mapped : (ObjectMeta → S → Result (List Key)) → Source S

-- For, Owns and Watches
unfoldable pub setup_with_manager : (c : Client) → Kind → Source c.State
setup_with_manager c agent = own
setup_with_manager c deployment = owner
setup_with_manager c config_map = owner
setup_with_manager c service = owner
setup_with_manager c policy = mapped (find_agents_for_policy c)
setup_with_manager c skill_set = mapped (find_agents_for_skill_set c)
setup_with_manager c channel = mapped (find_agents_for_channel c)
setup_with_manager c gateway = mapped (find_agents_for_gateway c)
setup_with_manager c observability = mapped (find_agents_for_observability c)
setup_with_manager c pvc = ignored
setup_with_manager c pod = ignored
