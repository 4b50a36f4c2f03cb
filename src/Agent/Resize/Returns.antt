-- ===== src/Agent/Resize/Returns.antt =====
-- What the steps of the migration between the first and the last return.
use hackaway_repo.Base.{◌<◌, String, ◌≡◌, refl, ◌∙◌, inl, inr, arith, false, []}
use hackaway_repo.Kube.Objects.{Quantity, Pvc}
use hackaway_repo.V1.Agent.{ClawAgent}
use hackaway_repo.Client.{deployment, pvc, pod, Key, key_of, not_found, ok, err, Client}
use hackaway_repo.Client.Laws.{Lawful, Healthy, stored_create}
use hackaway_repo.Agent.Volume.{build_pvc, build_migration_pod, key, migrate_pod_name, new_pvc_name}
use hackaway_repo.Agent.Volume.Owners.{with_owner_ok}
use hackaway_repo.Agent.Resize.{
  ensure_migration_pod, create_owned, new_owner_message, ensure_new_pvc, resize_pvc,
}
use hackaway_repo.Agent.Resize.Progress.{present, is_running, stage}

module _ (c : Client) (law : Lawful c) (healthy : Healthy c) (s : c.State) where
  create_owned_ok :
      (owner : ClawAgent) (p : Pvc) (policy : String) (x : Key)
      → key_of pvc p ≡ x
      → p.meta.owner_references ≡ []
      → c.get pvc x s ≡ err not_found
      → (create_owned c owner p policy s).0 ≡ ok owner
  unfolding create_owned
  create_owned_ok owner p policy x same bare absent =
      let (q, made, moved, _) =
        with_owner_ok c law healthy new_owner_message owner policy p s bare in
      let (q', done, found, _) = stored_create c law healthy pvc q x s (moved ∙ same) absent in
      ground arith

  ensure_migration_pod_ok :
      (owner : ClawAgent) (old : Pvc) (ns name pvc_name : String)
      → c.get pod (key (migrate_pod_name name) ns) s ≡ err not_found
      → (ensure_migration_pod c owner old ns name pvc_name s).0 ≡ ok owner
  unfolding ensure_migration_pod build_migration_pod
  ensure_migration_pod_ok owner old ns name pvc_name absent =
      let p = build_migration_pod (migrate_pod_name name) ns name pvc_name (new_pvc_name name) in
      let (p', done, found, _) =
        stored_create c law healthy pod p (key (migrate_pod_name name) ns) s refl absent in
      ground arith

  ensure_new_pvc_ok :
      (owner : ClawAgent) (old : Pvc) (ns name pvc_name : String) (size : Quantity)
      (policy : String)
      → is_running c (key name ns) s ≡ false
      → 0 < stage c ns name s
      → (ensure_new_pvc c owner old ns name pvc_name size policy s).0 ≡ ok owner
  unfolding ensure_new_pvc stage present build_pvc
  ensure_new_pvc_ok owner old ns name pvc_name size policy rest more =
      elim (healthy.reads pvc (key (new_pvc_name name) ns) s) [
        | inl (n, found) ↦ elim (healthy.reads pod (key (migrate_pod_name name) ns) s) [
          | inl (p, started) ↦ absurd (ground arith)
          | inr absent ↦ ground (arith, ensure_migration_pod_ok owner old ns name pvc_name absent)
        ]
        | inr absent ↦ ground (
          arith,
          create_owned_ok owner (build_pvc (new_pvc_name name) ns name size owner.spec.workspace)
              policy (key (new_pvc_name name) ns) refl refl absent,
        )
      ]

  -- With a lawful and healthy client, when the deployment does not run and the new claim or the
  -- migration pod is missing, the step returns without an error: it does not ask for a requeue, and
  -- its caller goes on to the deployment while the migration is under way.
  pub resize_pvc_goes_on :
      (owner : ClawAgent) (old : Pvc) (ns name pvc_name : String) (size : Quantity)
      (policy : String)
      → is_running c (key name ns) s ≡ false
      → 0 < stage c ns name s
      → (resize_pvc c owner old ns name pvc_name size policy s).0 ≡ ok owner
  unfolding resize_pvc is_running
  resize_pvc_goes_on owner old ns name pvc_name size policy rest more =
      let goes_on = ensure_new_pvc_ok owner old ns name pvc_name size policy rest more in
      elim (healthy.reads deployment (key name ns) s) [
        | inl (d, found) ↦ ground (arith, goes_on)
        | inr absent ↦ ground (arith, goes_on)
      ]
