-- ===== src/Agent/Reconcile/Workload.antt =====
-- The end of a reconciliation: the deployment and the service are there, and the status of the
-- stored agent says what the deployment says.
use hackaway_repo.Base.{
  String, ◌≡◌, ◌≢◌, sym, ◌∙◌, subst, inl, inr, arith, Bool-cases, ◌==◌, ◌&&◌, eq_iff,
}
use hackaway_repo.Kube.Objects.{Deployment, Service}
use hackaway_repo.V1.Agent.{ClawAgent, ClawAgentStatus}
use hackaway_repo.Client.{
  Kind, deployment, service, agent, Key, key_of, ok, Client, reads, ◌>>◌, ◌>>=◌,
}
use hackaway_repo.Client.Laws.{Lawful}
use hackaway_repo.Client.Steps.{bind_ok, then_ok}
use hackaway_repo.Harness.Json.{Encoding}
use hackaway_repo.Harness.Contract.{ConfigInput}
use hackaway_repo.Harness.Registry.{for_type}
use hackaway_repo.Agent.Volume.{key}
use hackaway_repo.Agent.Deployment.{DeploymentParams, agent_deployment, agent_service}
use hackaway_repo.Agent.Ensure.{ensure_deployment, ensure_service}
use hackaway_repo.Agent.Ensure.Frames.{ensure_deployment-frame, ensure_service-frame}
use hackaway_repo.Agent.Ensure.Laws.{
  Holds, Holds-carried, ensure_deployment-Holds, ensure_service-Holds,
}
use hackaway_repo.Agent.Status.{resolve_agent_status}
use hackaway_repo.Agent.Reconcile.{ensure_workload, write_status}
use hackaway_repo.Agent.Reconcile.Frames.{write_status-frame}

abbrev pub params : Encoding → ClawAgent → String → ConfigInput → DeploymentParams
params e a active_pvc input = record {
  agent = a;
  namespace = input.namespace;
  name = input.name;
  otlp_endpoint = input.otlp_endpoint;
  gateway_url = input.gateway_url;
  active_pvc = active_pvc;
  channels = input.channels;
  harness = for_type e a.spec.harness.type;
}

-- The deployment that the source asks for.
abbrev pub wanted_deployment : Encoding → ClawAgent → String → ConfigInput → Deployment
wanted_deployment e a active_pvc input = agent_deployment (params e a active_pvc input)

abbrev pub wanted_service : Encoding → ClawAgent → ConfigInput → Service
wanted_service e a input =
    agent_service (for_type e a.spec.harness.type) a input.namespace input.name

-- The deployment and the service.
abbrev pub Serving : (c : Client) → Encoding → ClawAgent → String → ConfigInput → c.State → Type 0
Serving c e a active_pvc input s =
    Holds c deployment (wanted_deployment e a active_pvc input) s
    × Holds c service (wanted_service e a input) s

-- The agent is stored with the status.
abbrev pub Stored : (c : Client) → ClawAgent → ClawAgentStatus → c.State → Type 0
Stored c a status s =
    (o : ClawAgent) × (c.get agent (key_of agent a) s ≡ ok o) × (o.status ≡ status)

-- It is stored with the claim in use and with what its deployment shows now.
abbrev pub Reported : (c : Client) → ClawAgent → String → ConfigInput → c.State → Type 0
Reported c a active_pvc input s =
    (phase : String) × (pod_name : String) × (resolve_agent_status c input.namespace input.name s
      ≡ ok (phase, pod_name))
    × Stored c a (record { phase = phase; pod_name = pod_name; workspace_pvc = active_pvc }) s

module _ (c : Client) (e : Encoding) (law : Lawful c) where
  pub resolve_agent_status-reads :
      (ns name : String) (s t : c.State)
      → c.get deployment (key name ns) t ≡ c.get deployment (key name ns) s
      → resolve_agent_status c ns name t ≡ resolve_agent_status c ns name s
  unfolding resolve_agent_status
  resolve_agent_status-reads ns name s t same = ground (arith, same)

  write_status-Stored :
      (old a : ClawAgent) (active_pvc phase pod_name : String) (s : c.State)
      → Stored c a old.status s
      → (write_status c e old a active_pvc (phase, pod_name) s).0 ≡ ok tt
      → Stored c a
          (record { phase = phase; pod_name = pod_name; workspace_pvc = active_pvc })
          (write_status c e old a active_pvc (phase, pod_name) s).1
  unfolding write_status
  write_status-Stored old a active_pvc phase pod_name s (o, there, known) done =
      let b : ClawAgent = record a {
        status = record { phase = phase; pod_name = pod_name; workspace_pvc = active_pvc };
      } in
      elim (Bool-cases (
        phase == old.status.phase
        && pod_name == old.status.pod_name
        && active_pvc == old.status.workspace_pvc)) [
          | inl same ↦
              let one = (eq_iff phase old.status.phase).0 (ground arith) in
              let two = (eq_iff pod_name old.status.pod_name).0 (ground arith) in
              let three = (eq_iff active_pvc old.status.workspace_pvc).0 (ground arith) in
              rw same (o, there, known ∙ cc)
          | inr changed ↦
              let (o', found, kept) = law.get_update_status agent b s (rw changed at done) in
              rw changed (o', found, sym kept)
        ]

  module _ (old a : ClawAgent) (active_pvc : String) (input : ConfigInput) (s : c.State) where
    -- The steps of the call, and what the last two leave alone.
    pub ensure_workload-done :
        Stored c a old.status s
        → (ensure_workload c e old a active_pvc input s).0 ≡ ok tt
        → Serving c e a active_pvc input (ensure_workload c e old a active_pvc input s).1
          × Reported c a active_pvc input (ensure_workload c e old a active_pvc input s).1
    unfolding ensure_workload
    ensure_workload-done (o, there, known) done =
        let dep = wanted_deployment e a active_pvc input in
        let svc = wanted_service e a input in
        let first = ensure_deployment c a.meta dep "agent-deployment" in
        let second = ensure_service c a.meta svc "agent-service" in
        let look = reads (resolve_agent_status c input.namespace input.name) in
        let third = write_status c e old a active_pvc in
        let (p, rest, end) = then_ok first (second >> (look >>= third)) s tt done in
        let one = (first s).1 in
        let (q, rest', end') = then_ok second (look >>= third) one tt rest in
        let two = (second one).1 in
        let ((phase, pod_name), seen, r, end'') = bind_ok look third two tt rest' in
        let fin = (third (phase, pod_name) two).1 in
        let last : (ensure_workload c e old a active_pvc input s).1 ≡ fin = end ∙ end' ∙ end'' in
        let status_alone = λ (k : Kind) (x : Key) (other : agent ≢ k).
          write_status-frame c e law k x old a active_pvc (phase, pod_name) two other in
        let service_alone = λ (k : Kind) (x : Key) (other : service ≢ k).
          ensure_service-frame c law k x a.meta "agent-service" one svc (inl other) in
        let stored : Stored c a old.status two = (
          o,
          service_alone agent (key_of agent a) (λ t. cc)
              ∙ ensure_deployment-frame c law agent (key_of agent a) a.meta "agent-deployment" s dep
                  (inl (λ t. cc))
              ∙ there,
          known,
        ) in
        subst (λ t. Serving c e a active_pvc input t × Reported c a active_pvc input t) (sym last)
          (
            (
              Holds-carried c deployment dep one fin
                  (status_alone deployment (key_of deployment dep) (λ t. cc)
                    ∙ service_alone deployment (key_of deployment dep) (λ t. cc))
                  (ensure_deployment-Holds c law a.meta "agent-deployment" s dep p),
              Holds-carried c service svc two fin
                  (status_alone service (key_of service svc) (λ t. cc))
                  (ensure_service-Holds c law a.meta "agent-service" one svc q),
            ),
            (
              phase,
              pod_name,
              resolve_agent_status-reads input.namespace input.name two fin
                    (status_alone deployment (key input.name input.namespace) (λ t. cc))
                  ∙ seen,
              write_status-Stored old a active_pvc phase pod_name two stored r,
            ),
          )
