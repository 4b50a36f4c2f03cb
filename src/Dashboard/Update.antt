-- ===== src/Dashboard/Update.antt =====
-- internal/controller/clawagent_controller.go, `updateFleetDashboard`. The hash of the last page is
-- kept by the controller, beside the cluster.
use hackaway_repo.Base.{
  pos, String, Option, none, some, List, [], ◌∷◌, ◌==◌, snippet, if◌then◌else◌,
}
use hackaway_repo.Kube.Objects.{ConfigMap}
use hackaway_repo.Kube.Build.{text_config_map}
use hackaway_repo.V1.Agent.{ClawAgent}
use hackaway_repo.V1.Policy.{ClawPolicy}
use hackaway_repo.Client.{
  config_map, agent, policy, is_not_found, Client, M, pure, fail, ◌>>=◌, ◌>>◌, attempt, reads,
}
use hackaway_repo.Agent.Volume.{key}
use hackaway_repo.Dashboard.Card.{AgentInfo}
use hackaway_repo.Dashboard.Page.{generate_fleet_dashboard_html}

-- The cluster and `lastDashboardHash`.
pub record Controller (S : Type 0) : Type 0 where
  pub cluster : S
  pub last_dashboard_hash : String

module _ {S : Type 0} where
  -- An action on the cluster alone.
  abbrev pub on_cluster : {A : Type 0} → M S A → M (Controller S) A
  on_cluster m r = ((m r.cluster).0, record r { cluster = (m r.cluster).1 })

  abbrev pub remember : String → M (Controller S) (Unit {0})
  remember hash = λ r. pure tt (record r { last_dashboard_hash = hash })

-- The limits and the denied tools, if a policy is read.
unfoldable pub with_policy : Option ClawPolicy → AgentInfo → AgentInfo
with_policy none info = info
with_policy (some pol) info = record info {
  budget_daily = pol.spec.budget.daily;
  budget_monthly = pol.spec.budget.monthly;
  downgrade_model = pol.spec.budget.downgrade_model;
  tool_deny = pol.spec.tool_policy.deny;
}

unfoldable pub info_of : ClawAgent → AgentInfo
info_of a = record {
  name = a.meta.name;
  phase = a.status.phase;
  model = a.spec.model.name;
  fallback_model = elim a.spec.model.fallback [ none ↦ "" | some f ↦ f.name ];
  provider = a.spec.model.provider;
  gateway = a.spec.gateway;
  policy = a.spec.policy;
  skill_set = a.spec.skill_set;
  observability = a.spec.observability;
  channels = a.spec.channels;
  soul = snippet 100 a.spec.identity.soul;
  budget_daily = pos 0;
  budget_monthly = pos 0;
  downgrade_model = "";
  tool_deny = [];
  restart_policy = a.spec.lifecycle.restart_policy;
  max_runtime = a.spec.lifecycle.max_runtime;
  idle_hibernate = elim a.spec.lifecycle.hibernate_after_idle_minutes [ none ↦ pos 0 | some n ↦ n ];
}

unfoldable pub dashboard_config_map : String → String → ConfigMap
dashboard_config_map ns html =
    text_config_map "fleet-dashboard" ns
      (("app", "fleet-dashboard") ∷ ("app.kubernetes.io/managed-by", "clawbernetes") ∷ [])
      (("index.html", html) ∷ [])

module _ (c : Client) (sha256_hex : String → String) where
  open c use {State, get, list, create, update}

  -- The policy of an agent. Any error of the read counts as none.
  unfoldable pub policy_of : ClawAgent → String → M State (Option ClawPolicy)
  policy_of a ns =
      if a.spec.policy == ""
      then pure none
      else attempt (reads (get policy (key a.spec.policy ns))) (λ pol. pure (some pol))
          (λ _. pure none)

  unfoldable pub collect_infos : List ClawAgent → String → M State (List AgentInfo)
  unfolding policy_of
  collect_infos [] ns = pure []
  collect_infos (a ∷ agents) ns = do
    pol ← policy_of a ns
    infos ← collect_infos agents ns
    pure (with_policy pol (info_of a) ∷ infos)

  -- The hash is set before a new config map is created, and after one is updated.
  unfoldable pub store_dashboard : String → String → String → M (Controller State) (Unit {0})
  store_dashboard ns html hash =
      attempt (on_cluster (reads (get config_map (key "fleet-dashboard" ns))))
        (λ existing. do
          on_cluster (
              update config_map
                (record existing { entries = (dashboard_config_map ns html).entries }))
          remember hash)
        λ e.
          if is_not_found e
          then (remember hash >> on_cluster (create config_map (dashboard_config_map ns html)))
          else fail e

  -- The critical section: nothing is written when the page has the hash of the last one.
  unfoldable pub show_dashboard : String → String → M (Controller State) (Unit {0})
  unfolding store_dashboard
  show_dashboard ns html r =
      if sha256_hex html == r.last_dashboard_hash
      then pure tt r
      else store_dashboard ns html (sha256_hex html) r

  unfoldable pub update_fleet_dashboard : String → M (Controller State) (Unit {0})
  unfolding collect_infos show_dashboard
  update_fleet_dashboard ns = do
    agents ← on_cluster (reads (list agent ns))
    infos ← on_cluster (collect_infos agents ns)
    show_dashboard ns (generate_fleet_dashboard_html infos)
