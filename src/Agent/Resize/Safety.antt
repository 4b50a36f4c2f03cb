-- ===== src/Agent/Resize/Safety.antt =====
-- What one step of the migration may do to claims.
use hackaway_repo.Base.{String, ◌≡◌, ◌≢◌, refl, ◌∙◌, inl, inr, arith, eq_iff, pos, some}
use hackaway_repo.Kube.Objects.{Quantity, Pvc, Pod}
use hackaway_repo.V1.Agent.{ClawAgent}
use hackaway_repo.Client.{deployment, pvc, pod, Key, key_of, Error, Result-cases, ok, err, Client}
use hackaway_repo.Client.Laws.{Lawful, Elsewhere}
use hackaway_repo.Agent.Volume.{
  build_pvc, build_migration_pod, with_owner, key, migrate_pod_name, new_pvc_name,
}
use hackaway_repo.Agent.Volume.Owners.{with_owner_key, with_owner_state}
use hackaway_repo.Agent.Resize.{
  check_migration, ensure_migration_pod, create_owned, new_owner_message, ensure_new_pvc,
  resize_pvc,
}

module _ (c : Client) (law : Lawful c) where
  module _ (s : c.State) (x : Key) (o : Pvc) (present : c.get pvc x s ≡ ok o) where
    check_migration-keeps :
        (owner : ClawAgent) (old : Pvc) (name : String) (p : Pod)
        → p.phase ≢ "Succeeded"
        → c.get pvc x (check_migration c owner old name p s).1 ≡ ok o
    unfolding check_migration
    check_migration-keeps owner old name p pending = ground (
      arith,
      eq_iff p.phase "Succeeded",
      law.delete_elsewhere pod (key_of pod p) s pvc x (inl (λ e. cc e)),
    )

    ensure_migration_pod-keeps :
        (owner : ClawAgent) (old : Pvc) (ns name pvc_name : String)
        → ((p : Pod) → c.get pod (key (migrate_pod_name name) ns) s ≡ ok p → p.phase ≢ "Succeeded")
        → c.get pvc x (ensure_migration_pod c owner old ns name pvc_name s).1 ≡ ok o
    unfolding ensure_migration_pod
    ensure_migration_pod-keeps owner old ns name pvc_name pending =
        elim (Result-cases (c.get pod (key (migrate_pod_name name) ns) s)) [
          | inl (p, e) ↦ ground (arith, check_migration-keeps owner old name p (pending p e))
          | inr other ↦ ground (
            arith,
            law.create_elsewhere pod
                (build_migration_pod (migrate_pod_name name) ns name pvc_name (new_pvc_name name)) s
                pvc x (inl (λ e. cc)),
          )
        ]

    -- The claim that a step creates was not there.
    absent-Elsewhere :
        (q : Pvc) (y : Key) (e : Error)
        → key_of pvc q ≡ y
        → c.get pvc y s ≡ err e
        → Elsewhere pvc (key_of pvc q) pvc x
    absent-Elsewhere q y e same absent = inr (λ clash. cc)

    create_owned-keeps :
        (owner : ClawAgent) (p : Pvc) (policy : String) (y : Key) (e : Error)
        → key_of pvc p ≡ y
        → c.get pvc y s ≡ err e
        → c.get pvc x (create_owned c owner p policy s).1 ≡ ok o
    unfolding create_owned
    create_owned-keeps owner p policy y e same absent =
        elim (Result-cases (with_owner c new_owner_message owner policy p s).0) [
          | inl (q, made) ↦
              let moved = with_owner_key c law new_owner_message owner policy p q s made in
              ground (
                arith,
                with_owner_state c law new_owner_message owner policy p s,
                law.create_elsewhere pvc q s pvc x (absent-Elsewhere q y e (moved ∙ same) absent),
              )
          | inr other ↦ ground (arith, with_owner_state c law new_owner_message owner policy p s)
        ]

    ensure_new_pvc-keeps :
        (owner : ClawAgent) (old : Pvc) (ns name pvc_name : String) (size : Quantity)
        (policy : String)
        → ((p : Pod) → c.get pod (key (migrate_pod_name name) ns) s ≡ ok p → p.phase ≢ "Succeeded")
        → c.get pvc x (ensure_new_pvc c owner old ns name pvc_name size policy s).1 ≡ ok o
    unfolding ensure_new_pvc build_pvc
    ensure_new_pvc-keeps owner old ns name pvc_name size policy pending =
        elim (Result-cases (c.get pvc (key (new_pvc_name name) ns) s)) [
          | inl (p, e) ↦
              ground (arith, ensure_migration_pod-keeps owner old ns name pvc_name pending)
          | inr (inl (e, absent)) ↦ ground (
            arith,
            create_owned-keeps owner
                (build_pvc (new_pvc_name name) ns name size owner.spec.workspace) policy
                (key (new_pvc_name name) ns) e refl absent,
          )
          | inr (inr e) ↦ ground arith
        ]

    -- With a lawful client, a step of the migration leaves a claim that is there as it is, the one
    -- that is being replaced included, if the migration pod, where there is one, has not succeeded.
    pub resize_pvc-keeps :
        (owner : ClawAgent) (old : Pvc) (ns name pvc_name : String) (size : Quantity)
        (policy : String)
        → ((p : Pod) → c.get pod (key (migrate_pod_name name) ns) s ≡ ok p → p.phase ≢ "Succeeded")
        → c.get pvc x (resize_pvc c owner old ns name pvc_name size policy s).1 ≡ ok o
    unfolding resize_pvc
    resize_pvc-keeps owner old ns name pvc_name size policy pending =
        elim (Result-cases (c.get deployment (key name ns) s)) [
          | inl (d, e) ↦ ground (
            arith,
            ensure_new_pvc-keeps owner old ns name pvc_name size policy pending,
            law.update_elsewhere deployment
                (record d { spec = record d.spec { replicas = some (pos 0) } }) s pvc x
                (inl (λ same. cc)),
          )
          | inr other ↦
              ground (arith, ensure_new_pvc-keeps owner old ns name pvc_name size policy pending)
        ]
