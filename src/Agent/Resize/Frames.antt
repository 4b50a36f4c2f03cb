-- ===== src/Agent/Resize/Frames.antt =====
-- A step of `resizePVC` writes claims, pods and the deployment, and the agent that it returns is the
-- one that it was given, but for its status.
use hackaway_repo.Base.{String, ◌≡◌, ◌≢◌, refl, inl, some, pos, ◌==◌}
use hackaway_repo.Kube.Objects.{Pvc, Pod, Deployment, Quantity}
use hackaway_repo.V1.Agent.{ClawAgent}
use hackaway_repo.Client.{
  Kind, deployment, pvc, pod, Key, key_of, Error, requeue_needed, is_not_found, Client, M, pure,
  fail, reads, wrapping,
}
use hackaway_repo.Client.Laws.{Lawful}
use hackaway_repo.Client.Frame.{
  Tame, Leaves-wrapping, Tame-pure, Tame-fail, Tame-if, Tame-bind, Tame-attempt,
}
use hackaway_repo.Agent.Volume.{
  key, migrate_pod_name, new_pvc_name, build_pvc, build_migration_pod, with_owner, running,
}
use hackaway_repo.Agent.Volume.Owners.{with_owner_state}
use hackaway_repo.Agent.Resize.{
  finish_resize, remove_old, migration_failed, check_migration, ensure_migration_pod, create_owned,
  ensure_new_pvc, scale_down, resize_pvc, new_owner_message,
}

-- The same agent, but for its status.
abbrev pub SameAgent : ClawAgent → ClawAgent → Type 0
SameAgent a b = (b.meta ≡ a.meta) × (b.spec ≡ a.spec)

module _ (c : Client) (law : Lawful c) (j : Kind) (x : Key) (pvcs : pvc ≢ j) (pods : pod ≢ j)
    (deployments : deployment ≢ j) (owner : ClawAgent) where
  Calm : M c.State ClawAgent → Type 0
  Calm m = Tame c j x (SameAgent owner) m

  stop : (f : Error) → Calm (fail f)
  unfolding Calm
  stop f = Tame-fail c j x (SameAgent owner) f

  unchanged : Calm (pure owner)
  unfolding Calm
  unchanged = Tame-pure c j x (SameAgent owner) owner (refl, refl)

  module _ (old : Pvc) (name : String) where
    finish_resize-Calm : Calm (finish_resize c owner name)
    unfolding Calm finish_resize
    finish_resize-Calm = Tame-pure c j x (SameAgent owner) _ (refl, refl)

    remove_old-Calm : Calm (remove_old c owner old name)
    unfolding Calm remove_old
    remove_old-Calm =
        Tame-attempt c j x (SameAgent owner) (c.delete pvc (key_of pvc old)) _ _
          (λ s. law.delete_elsewhere pvc (key_of pvc old) s j x (inl pvcs))
          (λ _. finish_resize-Calm)
          (λ e. Tame-if c j x _ (is_not_found e) _ _ finish_resize-Calm (stop e))

    check_migration-Calm : (p : Pod) → Calm (check_migration c owner old name p)
    unfolding Calm check_migration migration_failed
    check_migration-Calm p =
        let deleted = λ (s : c.State). law.delete_elsewhere pod (key_of pod p) s j x (inl pods) in
        Tame-if c j x _ (p.phase == "Succeeded") _ _
          (Tame-attempt c j x _ (c.delete pod (key_of pod p)) _ _ deleted (λ _. remove_old-Calm)
            (λ _. remove_old-Calm))
          (Tame-if c j x _ (p.phase == "Failed") _ _
            (Tame-attempt c j x _ (c.delete pod (key_of pod p)) _ _ deleted (λ _. stop _)
              (λ _. stop _))
            (stop requeue_needed))

    module _ (ns pvc_name : String) where
      ensure_migration_pod-Calm : Calm (ensure_migration_pod c owner old ns name pvc_name)
      unfolding Calm ensure_migration_pod
      ensure_migration_pod-Calm =
          let p =
            build_migration_pod (migrate_pod_name name) ns name pvc_name (new_pvc_name name) in
          Tame-attempt c j x _ (reads (c.get pod (key (migrate_pod_name name) ns))) _ _ (λ s. refl)
            check_migration-Calm
            (λ e.
              Tame-if c j x _ (is_not_found e) _ _
                (Tame-bind c j x _ (c.create pod p) _
                  (λ s. law.create_elsewhere pod p s j x (inl pods)) (λ _. unchanged))
                (stop e))

  create_owned-Calm : (p : Pvc) (policy : String) → Calm (create_owned c owner p policy)
  unfolding Calm create_owned
  create_owned-Calm p policy =
      Tame-bind c j x _ (with_owner c new_owner_message owner policy p) _
        (λ s i. c.get j x (with_owner_state c law new_owner_message owner policy p s i))
        (λ q.
          Tame-bind c j x _ (c.create pvc q) _ (λ s. law.create_elsewhere pvc q s j x (inl pvcs))
            (λ _. unchanged))

  module _ (old : Pvc) (ns name pvc_name : String) (size : Quantity) (policy : String) where
    ensure_new_pvc-Calm : Calm (ensure_new_pvc c owner old ns name pvc_name size policy)
    unfolding Calm ensure_new_pvc
    ensure_new_pvc-Calm =
        Tame-attempt c j x _ (reads (c.get pvc (key (new_pvc_name name) ns))) _ _ (λ s. refl)
          (λ _. ensure_migration_pod-Calm old name ns pvc_name)
          (λ e.
            Tame-if c j x _ (is_not_found e) _ _
              (create_owned-Calm (build_pvc (new_pvc_name name) ns name size owner.spec.workspace)
                policy)
              (stop e))

    scale_down-Calm : (d : Deployment) → Calm (scale_down c d)
    unfolding Calm scale_down
    scale_down-Calm d =
        let e = record d { spec = record d.spec { replicas = some (pos 0) } } in
        Tame-bind c j x _
          (wrapping "scaling deployment to 0 for PVC resize" (c.update deployment e)) _
          (Leaves-wrapping c j x _ (c.update deployment e)
            (λ s. law.update_elsewhere deployment e s j x (inl deployments)))
          (λ _. stop requeue_needed)

    pub resize_pvc-Leaves :
        Tame c j x (SameAgent owner) (resize_pvc c owner old ns name pvc_name size policy)
    unfolding Calm resize_pvc
    resize_pvc-Leaves =
        Tame-attempt c j x _ (reads (c.get deployment (key name ns))) _ _ (λ s. refl)
          (λ d. Tame-if c j x _ (running d) _ _ (scale_down-Calm d) ensure_new_pvc-Calm)
          (λ _. ensure_new_pvc-Calm)
