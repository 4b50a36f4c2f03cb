-- ===== src/Examples/Provisioning.antt =====
-- The theorems on what a reconciliation leaves in the cluster, on the objects that fit together, and
-- on the watches, at the clusters of Examples/Data.
use mathlib.Core.List.{Memᴰ}
use hackaway_repo.Base.{
  String, ◌≡◌, ◌≢◌, refl, sym, true, arith, none, List, [], ◌∷◌, ◌↔◌, eq_iff, contains, lookup,
}
use hackaway_repo.V1.Agent.{
  ClawAgent, is_persistent, resolved_storage_size, resolved_reclaim_policy,
}
use hackaway_repo.V1.SkillSet.{ClawSkillSet, SkillEntry}
use hackaway_repo.Kube.Build.{object_meta}
use hackaway_repo.Kube.WellFormed.{WellFormed, InFront}
use hackaway_repo.Client.{agent, deployment, skill_set, channel, Key, ok}
use hackaway_repo.Client.Memory.{Memory, memory, holding}
use hackaway_repo.Client.Memory.Lawfulness.{memory-Lawful}
use hackaway_repo.Harness.Contract.{ConfigInput}
use hackaway_repo.Harness.Registry.{for_type}
use hackaway_repo.Harness.OpenClaw.{openclaw}
use hackaway_repo.Agent.Volume.{
  key, active_pvc_name, new_pvc_name, with_owner, build_pvc, sync_pvc_owner_refs,
}
use hackaway_repo.Agent.Resize.{resize_pvc}
use hackaway_repo.Agent.Storage.{ensure_parsed_pvc, adjust_pvc}
use hackaway_repo.Agent.Resize.Frames.{SameAgent}
use hackaway_repo.Agent.Ensure.Laws.{Holds}
use hackaway_repo.Agent.Deployment.{DeploymentParams, agent_deployment, agent_service}
use hackaway_repo.Agent.Deployment.WellFormed.{agent_deployment-WellFormed}
use hackaway_repo.Agent.Status.{is_available}
use hackaway_repo.Agent.Reconcile.{reconciled, reconcile_agent, resolve_references}
use hackaway_repo.Agent.Reconcile.Workload.{wanted_deployment}
use hackaway_repo.Agent.Reconcile.Provisioned.{claim_in_use, Provisioned}
use hackaway_repo.Agent.Reconcile.Mountable.{AllMountable, reconcile_agent-Mountable}
use hackaway_repo.Agent.Watch.{setup_with_manager, find_agents_for_skill_set}
use hackaway_repo.Agent.Watch.Laws.{Referring}
use hackaway_repo.Agent.Watch.Exact.{requests, names, setup_with_manager-Referring}
use hackaway_repo.Agent.Watch.Complete.{resolve_references-unqueued}
use hackaway_repo.Kube.Objects.{Pod}
use hackaway_repo.Client.{pvc, pod}
use hackaway_repo.Agent.Volume.{migrate_pod_name}
use hackaway_repo.Agent.Storage.Keeps.{Kept}
use hackaway_repo.Dashboard.Update.{
  Controller, collect_infos, show_dashboard, update_fleet_dashboard,
}
use hackaway_repo.Api.Chat.{cluster_url, resolve_gateway_url}
use hackaway_repo.Api.Reachable.{reconcile-resolve_gateway_url}
use hackaway_repo.Gateway.WellFormed.{gateway_deployment-WellFormed}
use hackaway_repo.Gateway.Objects.{
  gateway_deployment, gateway_service, ollama_deployment, ollama_service,
}
use hackaway_repo.Kube.Build.{no_resources}
use hackaway_repo.Base.{pos, int32}
use hackaway_repo.Dashboard.Loop.{reconcile, then_dashboard}
use hackaway_repo.Dashboard.Whole.{reconcile-Kept}
use hackaway_repo.Examples.Data.{peer, claim_named, one_claim, at, bot, encoding, watched}

-- The agent with a claim that is to grow.
abbrev growing : Memory
growing = record one_claim { agents = at "bot" (bot "persistent") }

went_on : (reconcile_agent memory encoding (bot "persistent") (holding growing)).0 ≡ ok reconciled
unfolding memory holding reconcile_agent resolve_references for_type openclaw is_persistent
    agent_deployment is_available contains resolved_storage_size ensure_parsed_pvc with_owner
    resolved_reclaim_policy active_pvc_name adjust_pvc sync_pvc_owner_refs lookup resize_pvc
    build_pvc
went_on = refl

read_back : memory.get agent (key "bot" "ns") (holding growing) ≡ ok (bot "persistent")
unfolding memory holding
read_back = refl

abbrev beginning : Controller memory.State
beginning = record { cluster = holding growing; last_dashboard_hash = "" }

-- The hash of every page, also of the last one.
abbrev plain_hash : String → String
plain_hash s = ""

whole_run : (reconcile memory encoding plain_hash (key "bot" "ns") beginning).0 ≡ ok reconciled
unfolding reconcile memory holding for_type openclaw is_persistent contains resolved_storage_size
    ensure_parsed_pvc with_owner resolved_reclaim_policy active_pvc_name adjust_pvc
    sync_pvc_owner_refs lookup resize_pvc build_pvc agent_deployment is_available resolve_references
    reconcile_agent then_dashboard update_fleet_dashboard collect_infos show_dashboard
whole_run = refl

reconcile-resolve_gateway_url_example :
    (resolve_gateway_url memory "ns" "bot"
      (reconcile memory encoding plain_hash (key "bot" "ns") beginning).1.cluster).0
    ≡ ok (cluster_url "bot" "ns" (int32 (for_type encoding "openclaw").gateway_port))
reconcile-resolve_gateway_url_example =
    reconcile-resolve_gateway_url memory encoding memory-Lawful plain_hash (bot "persistent")
      (key "bot" "ns") beginning read_back whole_run

home_there :
    memory.get pvc (key "bot-home" "ns") (holding growing) ≡ ok (claim_named "bot-home" "5Gi")
unfolding memory holding
home_there = refl

no_copier :
    (p : Pod)
    → memory.get pod (key (migrate_pod_name "bot") "ns") (holding growing) ≡ ok p
    → p.phase ≢ "Succeeded"
unfolding memory holding
no_copier p found = absurd (ground arith)

keeps_workspace : is_persistent (bot "persistent").spec.workspace ≡ true
unfolding is_persistent
keeps_workspace = refl

reconcile-Kept_example :
    Kept memory
      (key "bot-home" "ns")
      (claim_named "bot-home" "5Gi")
      (reconcile memory encoding plain_hash (key "bot" "ns") beginning).1.cluster
reconcile-Kept_example =
    reconcile-Kept memory encoding memory-Lawful plain_hash (bot "persistent") (key "bot" "ns")
      (key "bot-home" "ns") (claim_named "bot-home" "5Gi") beginning read_back keeps_workspace
      home_there no_copier

-- What a reconciliation reads for the agent.
abbrev bot_input : ConfigInput
bot_input = record {
  agent = bot "persistent";
  namespace = "ns";
  name = "bot";
  gateway_url = "";
  otlp_endpoint = "";
  policy = none;
  gateway = none;
  channels = [];
}

first_growth : active_pvc_name (bot "persistent") "bot" ≢ new_pvc_name "bot"
unfolding active_pvc_name
first_growth same = cc ((eq_iff "bot-home" "bot-home-v2").1 same)

reconcile_agent-Mountable_example :
    let s = (reconcile_agent memory encoding (bot "persistent") (holding growing)).1 in
    (skills : List SkillEntry) × (input : ConfigInput) × (b : ClawAgent) × ((resolve_references
        memory encoding
        (bot "persistent")
        (holding growing)).0
      ≡ ok (skills, input))
    × SameAgent (bot "persistent") b
    × (let d = wanted_deployment encoding b (claim_in_use b input.name) input in
        Holds memory deployment d s
        × AllMountable memory input.namespace s d.spec.template_spec.volumes)
reconcile_agent-Mountable_example =
    reconcile_agent-Mountable memory encoding memory-Lawful (bot "persistent") (holding growing)
      read_back first_growth went_on

abbrev bot_params : DeploymentParams
bot_params = record {
  agent = bot "persistent";
  namespace = "ns";
  name = "bot";
  otlp_endpoint = "";
  gateway_url = "";
  active_pvc = "bot-home";
  channels = [];
  harness = for_type encoding "hermes";
}

-- The agent with one peer.
abbrev peered : DeploymentParams
peered = record bot_params {
  agent = record (bot "persistent") {
    spec = record (bot "persistent").spec {
      a2a = record (bot "persistent").spec.a2a { enabled = true; peers = peer ∷ [] };
    };
  };
}

agent_deployment-WellFormed_example :
    WellFormed (agent_deployment bot_params).spec
    × InFront
        (agent_service bot_params.harness (bot "persistent") "ns" "bot")
        (agent_deployment bot_params)
agent_deployment-WellFormed_example = agent_deployment-WellFormed encoding "hermes" bot_params refl

gateway_deployment-WellFormed_example :
    (WellFormed (gateway_deployment [] "ns" "front" (pos 9000) "").spec
      × InFront
          (gateway_service "ns" "front" (pos 9000))
          (gateway_deployment [] "ns" "front" (pos 9000) ""))
    × (WellFormed (ollama_deployment no_resources "ns" "front" "guard:1b").spec
        × InFront
            (ollama_service "ns" "front")
            (ollama_deployment no_resources "ns" "front" "guard:1b"))
gateway_deployment-WellFormed_example =
    gateway_deployment-WellFormed [] "ns" "front" (pos 9000) "" no_resources "guard:1b"

watched_list : memory.list agent "ns" (holding watched) ≡ ok (bot "persistent" ∷ [])
unfolding memory holding
watched_list = refl

setup_with_manager-Referring_example :
    (keys : List Key) × (requests
        (setup_with_manager memory channel)
        (object_meta "chat" "ns" [])
        (holding watched)
      ≡ ok keys)
    × (Memᴰ (key "bot" "ns") keys
        ↔ Referring (names channel "chat") (bot "persistent" ∷ []) (key "bot" "ns"))
setup_with_manager-Referring_example =
    setup_with_manager-Referring memory (object_meta "chat" "ns" []) (holding watched)
      (bot "persistent" ∷ []) watched_list channel (key "bot" "ns")

-- A skill set that the agent does not name.
abbrev tools : ClawSkillSet
tools = record { meta = object_meta "tools" "ns" []; spec = record { skills = [] } }

abbrev equipped : memory.State
equipped = (memory.create skill_set tools (holding watched)).1

equipped_list : memory.list agent "ns" equipped ≡ ok (bot "persistent" ∷ [])
unfolding memory holding
equipped_list = refl

not_asked : requests (setup_with_manager memory skill_set) tools.meta equipped ≡ ok []
unfolding memory holding setup_with_manager find_agents_for_skill_set
not_asked = refl

resolve_references-unqueued_example :
    (resolve_references memory encoding (bot "persistent") (holding watched)).0
    ≡ (resolve_references memory encoding (bot "persistent") equipped).0
resolve_references-unqueued_example =
    resolve_references-unqueued memory encoding (bot "persistent") skill_set tools.meta
      (holding watched) equipped (bot "persistent" ∷ []) [] equipped_list (Memᴰ.head refl)
      (λ j x away. sym (memory-Lawful.create_elsewhere skill_set tools (holding watched) j x away))
      not_asked (λ m. elim m [ ])
