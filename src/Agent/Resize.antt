-- ===== src/Agent/Resize.antt =====
-- internal/controller/clawagent_controller.go: a claim is grown by a new claim, a migration pod and
-- the removal of the old claim, one step in each reconciliation.
pub mod Safety
pub mod Progress
pub mod Returns
pub mod Completion
pub mod Frames
pub mod Backed
use hackaway_repo.Base.{pos, String, some, [], ◌∷◌, concat, ◌==◌, if◌then◌else◌}
use hackaway_repo.Kube.Objects.{Quantity, Pvc, Pod, Deployment}
use hackaway_repo.V1.Agent.{ClawAgent}
use hackaway_repo.Client.{
  deployment, pvc, pod, key_of, requeue_needed, message, is_not_found, Client, M, pure, fail, ◌>>=◌,
  ◌>>◌, attempt, reads, wrapping,
}
use hackaway_repo.Agent.Volume.{
  build_pvc, build_migration_pod, running, new_pvc_name, migrate_pod_name, key, with_owner,
}

abbrev new_owner_message : String
new_owner_message = "setting owner reference on new PVC"

module _ (c : Client) where
  open c use {
    State, get, create, update, delete, set_controller_reference, must_parse, zero_quantity, cmp,
  }

  -- owner.Status.WorkspacePVC = newPVCName
  finish_resize : ClawAgent → String → M State ClawAgent
  finish_resize owner name =
      pure (record owner { status = record owner.status { workspace_pvc = new_pvc_name name } })

  remove_old : ClawAgent → Pvc → String → M State ClawAgent
  unfolding finish_resize
  remove_old owner old_pvc name =
      attempt (delete pvc (key_of pvc old_pvc)) (λ _. finish_resize owner name)
        (λ e. if is_not_found e then finish_resize owner name else fail e)

  migration_failed : String → M State ClawAgent
  migration_failed name = fail (
      message
        (concat ("PVC resize migration failed — check logs for pod " ∷ migrate_pod_name name ∷ [])))

  -- Steps 4 to 6: the errors of deleting the pod are dropped.
  unfoldable pub check_migration : ClawAgent → Pvc → String → Pod → M State ClawAgent
  unfolding remove_old migration_failed
  check_migration owner old_pvc name p =
      if p.phase == "Succeeded"
      then attempt (delete pod (key_of pod p)) (λ _. remove_old owner old_pvc name)
          (λ _. remove_old owner old_pvc name)
      else (if p.phase == "Failed"
          then attempt (delete pod (key_of pod p)) (λ _. migration_failed name)
              (λ _. migration_failed name)
          else fail requeue_needed)

  -- Step 3
  unfoldable pub ensure_migration_pod :
      ClawAgent → Pvc → String → String → String → M State ClawAgent
  unfolding check_migration
  ensure_migration_pod owner old_pvc ns name pvc_name =
      attempt (reads (get pod (key (migrate_pod_name name) ns)))
        (check_migration owner old_pvc name)
        λ e.
          if is_not_found e
          then create pod
              (build_migration_pod (migrate_pod_name name) ns name pvc_name (new_pvc_name name))
            >> pure owner
          else fail e

  -- Step 2
  create_owned : ClawAgent → Pvc → String → M State ClawAgent
  create_owned owner p reclaim_policy = do
    owned ← with_owner c new_owner_message owner reclaim_policy p
    create pvc owned
    pure owner

  unfoldable pub ensure_new_pvc :
      ClawAgent → Pvc → String → String → String → Quantity → String → M State ClawAgent
  unfolding create_owned ensure_migration_pod
  ensure_new_pvc owner old_pvc ns name pvc_name new_size reclaim_policy =
      attempt (reads (get pvc (key (new_pvc_name name) ns)))
        (λ _. ensure_migration_pod owner old_pvc ns name pvc_name)
        λ e.
          if is_not_found e
          then create_owned owner
              (build_pvc (new_pvc_name name) ns name new_size owner.spec.workspace) reclaim_policy
          else fail e

  -- Step 1: a deployment that cannot be read is passed over.
  scale_down : Deployment → M State ClawAgent
  scale_down dep = do
    wrapping "scaling deployment to 0 for PVC resize"
        (update deployment (record dep { spec = record dep.spec { replicas = some (pos 0) } }))
    fail requeue_needed

  unfoldable pub resize_pvc :
      ClawAgent → Pvc → String → String → String → Quantity → String → M State ClawAgent
  unfolding scale_down ensure_new_pvc
  resize_pvc owner old_pvc ns name pvc_name new_size reclaim_policy =
      attempt (reads (get deployment (key name ns)))
        (λ dep.
          if running dep
          then scale_down dep
          else ensure_new_pvc owner old_pvc ns name pvc_name new_size reclaim_policy)
        λ _. ensure_new_pvc owner old_pvc ns name pvc_name new_size reclaim_policy
