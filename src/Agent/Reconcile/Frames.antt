-- ===== src/Agent/Reconcile/Frames.antt =====
-- The parts of a reconciliation that write config maps, the deployment, the service and the status
-- of the agent, and leave the objects of every other kind alone.
use hackaway_repo.Base.{String, ◌≡◌, ◌≢◌, inl, inr, arith, List}
use hackaway_repo.V1.Agent.{ClawAgent}
use hackaway_repo.V1.SkillSet.{SkillEntry}
use hackaway_repo.Client.{Kind, config_map, deployment, service, agent, Key, Result-cases, Client}
use hackaway_repo.Client.Laws.{Lawful}
use hackaway_repo.Harness.Json.{Encoding}
use hackaway_repo.Harness.Contract.{ConfigInput}
use hackaway_repo.Harness.Registry.{for_type}
use hackaway_repo.Agent.Config.{identity_config_map, skills_config_map, harness_config_map}
use hackaway_repo.Agent.Deployment.{agent_deployment, agent_service}
use hackaway_repo.Agent.Ensure.{ensure_config_map, ensure_deployment, ensure_service}
use hackaway_repo.Agent.Ensure.Frames.{
  ensure_config_map-frame, ensure_deployment-frame, ensure_service-frame,
}
use hackaway_repo.Agent.Status.{resolve_agent_status}
use hackaway_repo.Agent.Reconcile.{ensure_configs, ensure_workload, write_status}

module _ (c : Client) (e : Encoding) (law : Lawful c) (j : Kind) (x : Key) where
  pub ensure_configs-frame :
      (a : ClawAgent) (skills : List SkillEntry) (input : ConfigInput) (s : c.State)
      → config_map ≢ j
      → c.get j x (ensure_configs c e a skills input s).1 ≡ c.get j x s
  unfolding ensure_configs
  ensure_configs-frame a skills input s other =
      let identity = identity_config_map a input.namespace input.name in
      let content = skills_config_map input.namespace input.name skills in
      let one = ensure_config_map c a.meta identity "identity-configmap" s in
      let two = ensure_config_map c a.meta content "skills-configmap" one.1 in
      let first =
        ensure_config_map-frame c law j x a.meta "identity-configmap" s identity (inl other) in
      let second =
        ensure_config_map-frame c law j x a.meta "skills-configmap" one.1 content (inl other) in
      elim (Result-cases one.0) [
        | inl (_, p) ↦ elim (Result-cases two.0) [
          | inl (_, q) ↦
              elim (Result-cases (harness_config_map (for_type e a.spec.harness.type) input)) [
                | inl (m, made) ↦ ground (
                  arith,
                  first,
                  second,
                  ensure_config_map-frame c law j x a.meta "harness-config-configmap" two.1 m
                      (inl other),
                )
                | inr (inl (f, made)) ↦ ground (arith, first, second)
                | inr (inr made) ↦ ground (arith, first, second)
              ]
          | inr (inl (f, q)) ↦ ground (arith, first, second)
          | inr (inr q) ↦ ground (arith, first, second)
        ]
        | inr (inl (f, p)) ↦ ground (arith, first)
        | inr (inr p) ↦ ground (arith, first)
      ]

  pub write_status-frame :
      (old a : ClawAgent) (active_pvc : String) (status : String × String) (s : c.State)
      → agent ≢ j
      → c.get j x (write_status c e old a active_pvc status s).1 ≡ c.get j x s
  unfolding write_status
  write_status-frame old a active_pvc (phase, pod_name) s other =
      let b : ClawAgent = record a {
        status = record { phase = phase; pod_name = pod_name; workspace_pvc = active_pvc };
      } in
      ground (arith, law.update_status_elsewhere agent b s j x (inl other))

  pub ensure_workload-frame :
      (old a : ClawAgent) (active_pvc : String) (input : ConfigInput) (s : c.State)
      → deployment ≢ j
      → service ≢ j
      → agent ≢ j
      → c.get j x (ensure_workload c e old a active_pvc input s).1 ≡ c.get j x s
  unfolding ensure_workload
  ensure_workload-frame old a active_pvc input s no_dep no_svc no_agent =
      let h = for_type e a.spec.harness.type in
      let dep = agent_deployment (record {
        agent = a;
        namespace = input.namespace;
        name = input.name;
        otlp_endpoint = input.otlp_endpoint;
        gateway_url = input.gateway_url;
        active_pvc = active_pvc;
        channels = input.channels;
        harness = h;
      }) in
      let svc = agent_service h a input.namespace input.name in
      let one = ensure_deployment c a.meta dep "agent-deployment" s in
      let two = ensure_service c a.meta svc "agent-service" one.1 in
      let first = ensure_deployment-frame c law j x a.meta "agent-deployment" s dep (inl no_dep) in
      let second = ensure_service-frame c law j x a.meta "agent-service" one.1 svc (inl no_svc) in
      elim (Result-cases one.0) [
        | inl (_, p) ↦ elim (Result-cases two.0) [
          | inl (_, q) ↦
              elim (Result-cases (resolve_agent_status c input.namespace input.name two.1)) [
                | inl (status, r) ↦ ground (
                  arith,
                  first,
                  second,
                  write_status-frame old a active_pvc status two.1 no_agent,
                )
                | inr (inl (f, r)) ↦ ground (arith, first, second)
                | inr (inr r) ↦ ground (arith, first, second)
              ]
          | inr (inl (f, q)) ↦ ground (arith, first, second)
          | inr (inr q) ↦ ground (arith, first, second)
        ]
        | inr (inl (f, p)) ↦ ground (arith, first)
        | inr (inr p) ↦ ground (arith, first)
      ]
