-- ===== src/Agent/Volume.antt =====
-- internal/controller/clawagent_controller.go: the claim of an agent and its migration pod as they
-- are built, and the owner references of the claim.
pub mod Owners
pub mod Naming
use hackaway_repo.Base.{
  pos, is_zero, String, Bool, true, false, none, some, [], ◌∷◌, append, lookup, ◌==◌, if◌then◌else◌,
  Ordering, not, ◌&&◌, nonempty,
}
use hackaway_repo.Kube.Objects.{Quantity, Pvc, Pod, Container, claim, Deployment}
use hackaway_repo.V1.Agent.{
  ClawAgent, WorkspaceSpec, pvc_suffix, pvc_resize_suffix, reclaim_policy_delete,
  reclaim_policy_retain,
}
use hackaway_repo.Client.{
  pvc, Key, Error, Result, ok, err, panic, Client, M, pure, ◌>>=◌, ◌>>◌, lift,
}
use hackaway_repo.Kube.Build.{object_meta}
use hackaway_repo.Agent.Labels.{agent_labels}

unfoldable pub active_pvc_name : ClawAgent → String → String
active_pvc_name agent name =
    if agent.status.workspace_pvc == "" then append name pvc_suffix else agent.status.workspace_pvc

unfoldable pub build_pvc : String → String → String → Quantity → WorkspaceSpec → Pvc
build_pvc pvc_name ns agent_name size ws = record {
  meta = object_meta pvc_name ns (agent_labels agent_name);
  access_modes = "ReadWriteOnce" ∷ [];
  requests = ("storage", size) ∷ [];
  storage_class_name = ws.storage_class_name;
}

migrate_container : Container
migrate_container = record {
  name = "migrate";
  image = "busybox:1.36";
  image_pull_policy = "";
  command = "sh" ∷ "-c" ∷ "cp -a /src/. /dst/ && echo 'migration complete'" ∷ [];
  args = [];
  env = [];
  env_from = [];
  ports = [];
  readiness_probe = none;
  liveness_probe = none;
  volume_mounts =
      record { name = "src"; mount_path = "/src"; read_only = true }
      ∷ record { name = "dst"; mount_path = "/dst"; read_only = false }
      ∷ [];
  resources = record { requests = none; limits = none };
  post_start = none;
}

unfoldable pub build_migration_pod : String → String → String → String → String → Pod
unfolding migrate_container
build_migration_pod pod_name ns agent_name src_pvc dst_pvc = record {
  meta = object_meta pod_name ns (agent_labels agent_name);
  spec = record {
    security_context = some (record {
      run_as_user = some (pos 1000);
      run_as_group = some (pos 1000);
      fs_group = some (pos 1000);
    });
    restart_policy = "Never";
    init_containers = [];
    containers = migrate_container ∷ [];
    volumes =
        record { name = "src"; source = claim src_pvc true }
        ∷ record { name = "dst"; source = claim dst_pvc false }
        ∷ [];
  };
  phase = "";
}

-- existing.Spec.Resources.Requests[corev1.ResourceStorage]
abbrev pub storage_of : Quantity → Pvc → Quantity
storage_of zero_quantity p = elim (lookup "storage" p.requests) [
  | none ↦ zero_quantity
  | some q ↦ q
]

abbrev pub running : Deployment → Bool
running d = elim d.spec.replicas [ none ↦ true | some n ↦ not (is_zero n) ]

-- requested.Cmp(existing) > 0
abbrev pub is_gt : Ordering → Bool
is_gt Ordering.gt = true
is_gt _ = false

abbrev pub new_pvc_name : String → String
new_pvc_name name = append name pvc_resize_suffix

abbrev pub migrate_pod_name : String → String
migrate_pod_name name = append name "-pvc-migrate"

abbrev pub key : String → String → Key
key name ns = record { name = name; namespace = ns }

module _ (c : Client) where
  open c use {
    State, get, create, update, delete, set_controller_reference, must_parse, zero_quantity, cmp,
  }

  -- if reclaimPolicy == delete { ctrl.SetControllerReference(owner, pvc, r.Scheme) }
  owned_pvc : String → ClawAgent → Pvc → Result Pvc
  owned_pvc msg owner p = elim (set_controller_reference owner.meta p.meta) [
    | ok m ↦ ok (record p { meta = m })
    | err e ↦ err (Error.wrap msg e)
    | panic ↦ panic
  ]

  unfoldable pub with_owner : String → ClawAgent → String → Pvc → M State Pvc
  unfolding owned_pvc
  with_owner msg owner reclaim_policy p =
      if reclaim_policy == reclaim_policy_delete then lift (owned_pvc msg owner p) else pure p

  -- The claim with an owner, or without: the two writes of the sync.
  own_pvc : ClawAgent → Pvc → M State Pvc
  unfolding owned_pvc
  own_pvc owner p = do
    owned ← lift (owned_pvc "adding owner reference to existing PVC" owner p)
    update pvc owned
    pure owned

  disown_pvc : Pvc → M State Pvc
  disown_pvc p = do
    let released = record p { meta = record p.meta { owner_references = [] } }
    update pvc released
    pure released

  -- The claim as the sync leaves it.
  unfoldable pub sync_pvc_owner_refs : ClawAgent → Pvc → String → M State Pvc
  unfolding own_pvc disown_pvc
  sync_pvc_owner_refs owner p reclaim_policy =
      if reclaim_policy == reclaim_policy_delete && not (nonempty p.meta.owner_references)
      then own_pvc owner p
      else (if reclaim_policy == reclaim_policy_retain && nonempty p.meta.owner_references
          then disown_pvc p
          else pure p)
