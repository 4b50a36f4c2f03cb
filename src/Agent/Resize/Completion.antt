-- ===== src/Agent/Resize/Completion.antt =====
-- The last step of the migration: the pod has succeeded.
use hackaway_repo.Base.{String, subst, ◌≡◌, ◌≢◌, refl, ◌∙◌, inl, inr, arith, false, eq_iff}
use hackaway_repo.Kube.Objects.{Quantity, Pvc, Pod, Deployment}
use hackaway_repo.V1.Agent.{ClawAgent}
use hackaway_repo.Client.{deployment, pvc, pod, key_of, not_found, ok, err, Client}
use hackaway_repo.Client.Laws.{Lawful}
use hackaway_repo.Agent.Volume.{key, migrate_pod_name, new_pvc_name, running}
use hackaway_repo.Agent.Resize.{resize_pvc}

-- The agent's deployment is at rest, the new claim is there, the pod has succeeded, and the
-- deletions succeed.
pub record IsMigrated (c : Client) (s : c.State) (ns name : String) (old : Pvc) : Type 0 where
  pub dep : Deployment
  pub migration_pod : Pod
  pub target : Pvc
  pub at_rest : c.get deployment (key name ns) s ≡ ok dep
  pub stopped : running dep ≡ false
  pub copied : c.get pod (key (migrate_pod_name name) ns) s ≡ ok migration_pod
  pub succeeded : migration_pod.phase ≡ "Succeeded"
  pub pod_removed : (c.delete pod (key_of pod migration_pod) s).0 ≡ ok tt
  pub prepared : c.get pvc (key (new_pvc_name name) ns) s ≡ ok target
  pub removed :
      (c.delete pvc (key_of pvc old) (c.delete pod (key_of pod migration_pod) s).1).0 ≡ ok tt

abbrev pub moved : ClawAgent → String → ClawAgent
moved owner name = record owner {
  status = record owner.status { workspace_pvc = new_pvc_name name };
}

module _ (c : Client) (law : Lawful c) (s : c.State) (owner : ClawAgent) (old : Pvc)
    (ns name pvc_name : String) (size : Quantity) (policy : String)
    (m : IsMigrated c s ns name old) where
  resize_pvc_lem : resize_pvc c owner old ns name pvc_name size policy s ≡ (
    ok (moved owner name),
    (c.delete pvc (key_of pvc old) (c.delete pod (key_of pod m.migration_pod) s).1).1,
  )
  unfolding resize_pvc
  resize_pvc_lem = ground (
    arith,
    eq_iff m.migration_pod.phase "Succeeded",
    m.at_rest,
    m.stopped,
    m.copied,
    m.succeeded,
    m.pod_removed,
    m.prepared,
    m.removed,
  )

  -- With a lawful client, when the deployment is at rest, the new claim is there, the migration pod
  -- has succeeded, the deletions succeed and the old claim is not the new one, the step deletes the
  -- old claim, keeps the new one as it was, and the agent's status names the new one.
  pub resize_pvc_completes :
      key_of pvc old ≢ key (new_pvc_name name) ns
      → let (r, s') = resize_pvc c owner old ns name pvc_name size policy s in
        (r ≡ ok (moved owner name))
        × (c.get pvc (key_of pvc old) s' ≡ err not_found)
        × (c.get pvc (key (new_pvc_name name) ns) s' ≡ ok m.target)
  resize_pvc_completes fresh =
      let removed_pod = c.delete pod (key_of pod m.migration_pod) s in
      rw resize_pvc_lem (
        refl,
        law.get_delete pvc (key_of pvc old) removed_pod.1 m.removed,
        law.delete_elsewhere pvc (key_of pvc old) removed_pod.1 pvc _ (inr fresh)
            ∙ law.delete_elsewhere pod (key_of pod m.migration_pod) s pvc _ (inl (λ same. cc))
            ∙ m.prepared,
      )

  -- Under the same conditions on the cluster, but when the old claim has the name of the new one, as
  -- at a second growth, the step deletes the claim that the agent's status then names.
  pub resize_pvc_again :
      key_of pvc old ≡ key (new_pvc_name name) ns
      → let (r, s') = resize_pvc c owner old ns name pvc_name size policy s in
        (r ≡ ok (moved owner name)) × (c.get pvc (key (new_pvc_name name) ns) s' ≡ err not_found)
  resize_pvc_again same =
      let removed_pod = c.delete pod (key_of pod m.migration_pod) s in
      rw resize_pvc_lem (
        refl,
        subst (λ x. c.get pvc x (c.delete pvc (key_of pvc old) removed_pod.1).1 ≡ err not_found)
            same (law.get_delete pvc (key_of pvc old) removed_pod.1 m.removed),
      )
