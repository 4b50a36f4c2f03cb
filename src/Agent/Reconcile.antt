-- ===== src/Agent/Reconcile.antt =====
-- internal/controller/clawagent_controller.go, `Reconcile` of the agent controller, up to the
-- regeneration of the fleet dashboard, whose error is logged and dropped.
pub mod Reading
pub mod Claims
pub mod Frames
pub mod Desired
pub mod Workload
pub mod Ran
pub mod Provisioned
pub mod Mountable
use hackaway_repo.Base.{String, Option, none, some, List, ◌==◌, ◌&&◌, if◌then◌else◌}
use hackaway_repo.V1.Agent.{ClawAgent, is_persistent}
use hackaway_repo.V1.SkillSet.{SkillEntry}
use hackaway_repo.Client.{
  agent, gateway, policy, Key, is_not_found, is_requeue, Client, M, pure, fail, ◌>>=◌, ◌>>◌,
  attempt, reads, lift,
}
use hackaway_repo.Harness.Json.{Encoding}
use hackaway_repo.Harness.Contract.{ConfigInput}
use hackaway_repo.Harness.Registry.{for_type}
use hackaway_repo.Agent.Volume.{active_pvc_name}
use hackaway_repo.Agent.Storage.{ensure_pvc, cleanup_orphaned_pvc}
use hackaway_repo.Agent.Config.{identity_config_map, skills_config_map, harness_config_map}
use hackaway_repo.Agent.Deployment.{agent_deployment, agent_service}
use hackaway_repo.Agent.Ensure.{ensure_config_map, ensure_deployment, ensure_service}
use hackaway_repo.Agent.References.{
  resolve, resolve_endpoint, resolve_skills, resolve_channels, gateway_url_of,
}
use hackaway_repo.Agent.Status.{resolve_agent_status}

-- How a reconciliation ends without an error: the agent is gone, or it is to be run again in five
-- seconds, or it went to its end.
pub data Outcome : Type 0 where
  gone requeue reconciled : Outcome

module _ (c : Client) (e : Encoding) where
  open c use {State, get, update_status}

  -- The three config maps.
  unfoldable pub ensure_configs : ClawAgent → List SkillEntry → ConfigInput → M State (Unit {0})
  unfolding ensure_config_map identity_config_map skills_config_map harness_config_map
  ensure_configs a skills input = do
    ensure_config_map c a.meta (identity_config_map a input.namespace input.name)
        "identity-configmap"
    ensure_config_map c a.meta (skills_config_map input.namespace input.name skills)
        "skills-configmap"
    config ← lift (harness_config_map (for_type e a.spec.harness.type) input)
    ensure_config_map c a.meta config "harness-config-configmap"

  -- The agent, which a finished migration changes, and the claim in use. `none` asks for a requeue.
  unfoldable pub ensure_storage :
      ClawAgent → String → String → M State (Option (ClawAgent × String))
  unfolding ensure_pvc cleanup_orphaned_pvc
  ensure_storage a ns name =
      if is_persistent a.spec.workspace
      then attempt (ensure_pvc c a ns name) (λ b. pure (some (b, active_pvc_name b name)))
          (λ f. if is_requeue f then pure none else fail f)
      else (cleanup_orphaned_pvc c ns name >> pure (some (a, "")))

  -- The status is written if it is not the one that the agent was read with.
  unfoldable pub write_status :
      ClawAgent → ClawAgent → String → String × String → M State (Unit {0})
  write_status old a active_pvc (phase, pod_name) =
      if phase == old.status.phase
        && pod_name == old.status.pod_name
        && active_pvc == old.status.workspace_pvc
      then pure tt
      else update_status agent (record a {
        status = record { phase = phase; pod_name = pod_name; workspace_pvc = active_pvc };
      })

  -- The deployment, the service and the status.
  unfoldable pub ensure_workload : ClawAgent → ClawAgent → String → ConfigInput → M State (Unit {0})
  unfolding ensure_deployment ensure_service write_status resolve_agent_status
  ensure_workload old a active_pvc input = do
    let h = for_type e a.spec.harness.type
    ensure_deployment c a.meta
        (agent_deployment (record {
          agent = a;
          namespace = input.namespace;
          name = input.name;
          otlp_endpoint = input.otlp_endpoint;
          gateway_url = input.gateway_url;
          active_pvc = active_pvc;
          channels = input.channels;
          harness = h;
        }))
        "agent-deployment"
    ensure_service c a.meta (agent_service h a input.namespace input.name) "agent-service"
    status ← reads (resolve_agent_status c input.namespace input.name)
    write_status old a active_pvc status

  unfoldable pub resolve_references : ClawAgent → M State (List SkillEntry × ConfigInput)
  unfolding resolve resolve_endpoint resolve_skills resolve_channels
  resolve_references a = do
    let ns = a.meta.namespace
    otlp_endpoint ← resolve_endpoint c a.spec.observability ns
    skills ← resolve_skills c a.spec.skill_set ns
    gw ← resolve c gateway a.spec.gateway ns
    pol ← resolve c policy a.spec.policy ns
    channels ← resolve_channels c a.spec.channels ns
    pure (
      skills,
      record {
        agent = a;
        namespace = ns;
        name = a.meta.name;
        gateway_url = gateway_url_of gw a.spec.gateway ns;
        otlp_endpoint = otlp_endpoint;
        policy = pol;
        gateway = gw;
        channels = channels;
      },
    )

  -- The reconciliation of an agent that was read.
  unfoldable pub reconcile_agent : ClawAgent → M State Outcome
  unfolding resolve_references ensure_configs ensure_storage ensure_workload
  reconcile_agent a = do
    (skills, input) ← resolve_references a
    ensure_configs a skills input
    storage ← ensure_storage a input.namespace input.name
    elim storage [
      | none ↦ pure requeue
      | some (b, active_pvc) ↦ (ensure_workload a b active_pvc input >> pure reconciled)
    ]
