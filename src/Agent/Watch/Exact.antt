-- ===== src/Agent/Watch/Exact.antt =====
-- The watches are exact: a change of a resource brings to the queue the agents that name it.
use mathlib.Core.List.{Memᴰ}
use hackaway_repo.Base.{
  String, Bool, false, ◌≡◌, refl, ap, sym, List, [], ◌∷◌, arith, contains, ◌==◌, ◌↔◌,
}
use hackaway_repo.Kube.Objects.{ObjectMeta}
use hackaway_repo.V1.Agent.{ClawAgent, ClawAgentSpec}
use hackaway_repo.Client.{
  Kind, config_map, deployment, service, pvc, pod, agent, channel, gateway, policy, skill_set,
  observability, Key, Result, ok, Client,
}
use hackaway_repo.Agent.Watch.{
  Source, own, owner, ignored, mapped, requests_of, setup_with_manager,
  find_agents_referencing_field, find_agents_for_policy, find_agents_for_skill_set,
  find_agents_for_channel, find_agents_for_gateway, find_agents_for_observability,
}
use hackaway_repo.Agent.Watch.Laws.{Referring, requests_of_sound, requests_of_complete}

-- The requests that a watched resource is mapped to; the other kinds are not mapped.
abbrev pub requests : {S : Type 0} → Source S → ObjectMeta → S → Result (List Key)
requests own obj s = ok []
requests owner obj s = ok []
requests ignored obj s = ok []
requests (mapped f) obj s = f obj s

-- The spec names the resource of the kind.
abbrev pub names : Kind → String → ClawAgentSpec → Bool
names policy n spec = spec.policy == n
names skill_set n spec = spec.skill_set == n
names channel n spec = contains n spec.channels
names gateway n spec = spec.gateway == n
names observability n spec = spec.observability == n
names agent n spec = false
names config_map n spec = false
names deployment n spec = false
names service n spec = false
names pvc n spec = false
names pod n spec = false

none_of : (agents : List ClawAgent) → requests_of (λ spec. false) agents ≡ []
unfolding requests_of
none_of [] = refl
none_of (a ∷ agents) = none_of agents

module _ (c : Client) (obj : ObjectMeta) (s : c.State) (agents : List ClawAgent)
    (listed : c.list agent obj.namespace s ≡ ok agents) where
  pub requests-names :
      (k : Kind)
      → requests (setup_with_manager c k) obj s ≡ ok (requests_of (names k obj.name) agents)
  unfolding setup_with_manager find_agents_referencing_field find_agents_for_policy
      find_agents_for_skill_set find_agents_for_channel find_agents_for_gateway
      find_agents_for_observability
  requests-names policy = ground arith
  requests-names skill_set = ground arith
  requests-names channel = ground arith
  requests-names gateway = ground arith
  requests-names observability = ground arith
  requests-names agent = ap ok (sym (none_of agents))
  requests-names config_map = ap ok (sym (none_of agents))
  requests-names deployment = ap ok (sym (none_of agents))
  requests-names service = ap ok (sym (none_of agents))
  requests-names pvc = ap ok (sym (none_of agents))
  requests-names pod = ap ok (sym (none_of agents))

  -- When a resource changes and the list of its namespace can be read, the agents that the watches
  -- bring to the queue are exactly those of the list whose spec names the resource, for each of the
  -- five kinds of resources that an agent names.
  pub setup_with_manager-Referring :
      (k : Kind) (x : Key)
      → (keys : List Key) × (requests (setup_with_manager c k) obj s ≡ ok keys)
        × (Memᴰ x keys ↔ Referring (names k obj.name) agents x)
  setup_with_manager-Referring k x = (
    requests_of (names k obj.name) agents,
    requests-names k,
    (
      requests_of_sound (names k obj.name) x agents,
      λ r.
          let (a, among, matches, same) = r in
          requests_of_complete (names k obj.name) x agents a among matches same,
    ),
  )
