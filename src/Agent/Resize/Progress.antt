-- ===== src/Agent/Resize/Progress.antt =====
-- The migration moves on: each step that is not the last brings it nearer to its end.
use hackaway_repo.Base.{
  Option-cases, ℕ, ◌<◌, if◌then◌else◌, String, ◌≡◌, ◌≢◌, refl, sym, ◌∙◌, inl, inr, arith, Bool,
  true, false, Bool-cases, pos, some, [],
}
use hackaway_repo.Kube.Defaults.{defaulted-replicas}
use hackaway_repo.Kube.Objects.{Quantity, Pvc, Deployment}
use hackaway_repo.V1.Agent.{ClawAgent}
use hackaway_repo.Client.{
  Kind, deployment, pvc, pod, Key, key_of, not_found, ok, err, panic, Client,
}
use hackaway_repo.Client.Laws.{Lawful, Healthy, stored_update, stored_create}
use hackaway_repo.Agent.Volume.{
  build_pvc, build_migration_pod, key, migrate_pod_name, new_pvc_name, running,
}
use hackaway_repo.Agent.Volume.Owners.{with_owner_ok}
use hackaway_repo.Agent.Resize.{
  scale_down, ensure_migration_pod, create_owned, new_owner_message, ensure_new_pvc, resize_pvc,
}

unfoldable pub present : (c : Client) (k : Kind) → Key → c.State → Bool
present c k x s = elim (c.get k x s) [ ok _ ↦ true | err _ ↦ false | panic ↦ false ]

-- A deployment that is there and asks for replicas.
unfoldable pub is_running : (c : Client) → Key → c.State → Bool
is_running c x s = elim (c.get deployment x s) [ ok d ↦ running d | err _ ↦ false | panic ↦ false ]

-- How many steps are left before the migration pod is looked at: stopping the deployment, making
-- the new claim, starting the pod.
unfoldable pub stage : (c : Client) → String → String → c.State → ℕ
stage c ns name s =
    if is_running c (key name ns) s
    then 3
    else (if present c pvc (key (new_pvc_name name) ns) s
        then (if present c pod (key (migrate_pod_name name) ns) s then 0 else 1)
        else 2)

module _ (c : Client) (law : Lawful c) (healthy : Healthy c) (s : c.State) where
  abbrev stopped : Deployment → Deployment
  stopped d = record d { spec = record d.spec { replicas = some (pos 0) } }

  -- The update that stops the deployment.
  is_running-scale_down :
      (d : Deployment) (ns name : String)
      → c.get deployment (key name ns) s ≡ ok d
      → is_running c (key name ns) (scale_down c d s).1 ≡ false
  unfolding scale_down is_running
  is_running-scale_down d ns name found =
      let same = law.get_key deployment (key name ns) s d found in
      let (d', done, found', kept) =
        stored_update c law healthy deployment (stopped d) d (key name ns) s same found in
      let none_asked = defaulted-replicas (stopped d).spec d'.spec kept in
      elim (Option-cases d'.spec.replicas) [
        | inl unset ↦ absurd (ground (arith, none_asked, unset))
        | inr (n, set) ↦
            let zero : pos 0 ≡ n = ground (arith, none_asked, set) in
            ground (arith, found', set, zero)
      ]

  -- The step that makes the claim.
  present-create_owned :
      (owner : ClawAgent) (p : Pvc) (policy : String) (x : Key)
      → key_of pvc p ≡ x
      → p.meta.owner_references ≡ []
      → c.get pvc x s ≡ err not_found
      → (present c pvc x (create_owned c owner p policy s).1 ≡ true)
        × ((j : Kind) (y : Key)
            → j ≢ pvc
            → c.get j y (create_owned c owner p policy s).1 ≡ c.get j y s)
  unfolding create_owned present
  present-create_owned owner p policy x same bare absent =
      let (q, made, moved, _) =
        with_owner_ok c law healthy new_owner_message owner policy p s bare in
      let (q', done, found, _) = stored_create c law healthy pvc q x s (moved ∙ same) absent in
      (
        ground arith,
        λ j y other. ground (arith, law.create_elsewhere pvc q s j y (inl (λ e. other (sym e)))),
      )

  -- The step that starts the migration pod.
  pod_started :
      (owner : ClawAgent) (old : Pvc) (ns name pvc_name : String)
      → c.get pod (key (migrate_pod_name name) ns) s ≡ err not_found
      → let s' = (ensure_migration_pod c owner old ns name pvc_name s).1 in
        (present c pod (key (migrate_pod_name name) ns) s' ≡ true)
        × ((j : Kind) (y : Key) → j ≢ pod → c.get j y s' ≡ c.get j y s)
  unfolding ensure_migration_pod present build_migration_pod
  pod_started owner old ns name pvc_name absent =
      let p = build_migration_pod (migrate_pod_name name) ns name pvc_name (new_pvc_name name) in
      let (p', done, found, _) =
        stored_create c law healthy pod p (key (migrate_pod_name name) ns) s refl absent in
      (
        ground arith,
        λ j y other. ground (arith, law.create_elsewhere pod p s j y (inl (λ e. other (sym e)))),
      )

  -- With the deployment stopped, the step makes the claim or starts the pod.
  ensure_new_pvc-advances :
      (owner : ClawAgent) (old : Pvc) (ns name pvc_name : String) (size : Quantity)
      (policy : String)
      → is_running c (key name ns) s ≡ false
      → 0 < stage c ns name s
      → stage c ns name (ensure_new_pvc c owner old ns name pvc_name size policy s).1
        < stage c ns name s
  unfolding ensure_new_pvc stage is_running present build_pvc
  ensure_new_pvc-advances owner old ns name pvc_name size policy rest more =
      elim (healthy.reads pvc (key (new_pvc_name name) ns) s) [
        | inl (n, found) ↦ elim (healthy.reads pod (key (migrate_pod_name name) ns) s) [
          | inl (p, started) ↦ absurd (ground arith)
          | inr absent ↦
              let (here, others) = pod_started owner old ns name pvc_name absent in
              ground (
                arith,
                here,
                others pvc (key (new_pvc_name name) ns) (λ e. cc),
                others deployment (key name ns) (λ e. cc),
              )
        ]
        | inr absent ↦
            let (here, others) =
              present-create_owned owner
                (build_pvc (new_pvc_name name) ns name size owner.spec.workspace) policy
                (key (new_pvc_name name) ns) refl refl absent in
            ground (arith, here, others deployment (key name ns) (λ e. cc))
      ]

  is_running_of :
      (ns name : String) (d : Deployment)
      → c.get deployment (key name ns) s ≡ ok d
      → running d ≡ false
      → is_running c (key name ns) s ≡ false
  unfolding is_running
  is_running_of ns name d found rest = ground arith

  not_running_of :
      (ns name : String)
      → c.get deployment (key name ns) s ≡ err not_found
      → is_running c (key name ns) s ≡ false
  unfolding is_running
  not_running_of ns name absent = ground arith

  stage_of_stopped :
      (t : c.State) (ns name : String)
      → is_running c (key name ns) t ≡ false
      → stage c ns name t < 3
  unfolding stage
  stage_of_stopped t ns name rest = ground arith

  stage_of_running :
      (ns name : String) (d : Deployment)
      → c.get deployment (key name ns) s ≡ ok d
      → running d ≡ true
      → stage c ns name s ≡ 3
  unfolding stage is_running
  stage_of_running ns name d found busy = ground arith

  -- With a lawful and healthy client, when the deployment runs, or the new claim or the migration
  -- pod is missing, one step makes the number of these preparations that are left smaller.
  pub resize_pvc-advances :
      (owner : ClawAgent) (old : Pvc) (ns name pvc_name : String) (size : Quantity)
      (policy : String)
      → 0 < stage c ns name s
      → stage c ns name (resize_pvc c owner old ns name pvc_name size policy s).1
        < stage c ns name s
  unfolding resize_pvc
  resize_pvc-advances owner old ns name pvc_name size policy more =
      elim (healthy.reads deployment (key name ns) s) [
        | inl (d, found) ↦ elim (Bool-cases (running d)) [
          | inl busy ↦
              let stops =
                stage_of_stopped (scale_down c d s).1 ns name
                  (is_running-scale_down d ns name found) in
              let now = stage_of_running ns name d found busy in ground (arith, stops, now)
          | inr rest ↦ ground (arith, advances (is_running_of ns name d found rest))
        ]
        | inr absent ↦ ground (arith, advances (not_running_of ns name absent))
      ]
    where
      advances :
          is_running c (key name ns) s ≡ false
          → stage c ns name (ensure_new_pvc c owner old ns name pvc_name size policy s).1
            < stage c ns name s
      advances rest = ensure_new_pvc-advances owner old ns name pvc_name size policy rest more
