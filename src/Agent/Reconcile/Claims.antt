-- ===== src/Agent/Reconcile/Claims.antt =====
-- What a whole reconciliation may do to claims.
use hackaway_repo.Base.{String, true, ◌≡◌, refl, sym, ◌∙◌, ap, inl, inr, arith, none, some, subst}
use hackaway_repo.Kube.Objects.{Pvc}
use hackaway_repo.V1.Agent.{ClawAgent, is_persistent}
use hackaway_repo.Client.{pvc, pod, Key, ok, Result-cases, Client}
use hackaway_repo.Client.Laws.{Lawful}
use hackaway_repo.Harness.Json.{Encoding}
use hackaway_repo.Agent.Volume.{key, migrate_pod_name}
use hackaway_repo.Agent.Storage.{ensure_pvc}
use hackaway_repo.Agent.Storage.Keeps.{Kept, Pending, ensure_pvc-Kept}
use hackaway_repo.Agent.Reconcile.{
  ensure_configs, ensure_storage, resolve_references, reconcile_agent,
}
use hackaway_repo.Agent.Reconcile.Reading.{resolve_references-state, resolve_references-about}
use hackaway_repo.Agent.Reconcile.Frames.{ensure_configs-frame, ensure_workload-frame}

module _ (c : Client) (e : Encoding) (law : Lawful c) (x : Key) (o : Pvc) where
  ensure_storage-Kept :
      (a : ClawAgent) (ns name : String) (s : c.State)
      → is_persistent a.spec.workspace ≡ true
      → c.get pvc x s ≡ ok o
      → Pending c ns name s
      → Kept c x o (ensure_storage c e a ns name s).1
  unfolding ensure_storage
  ensure_storage-Kept a ns name s persistent held pending =
      let (o', kept, sized) = ensure_pvc-Kept c law x o a ns name s held pending in
      elim (Result-cases (ensure_pvc c a ns name s).0) [
        | inl (b, p) ↦ (o', ground (arith, kept), sized)
        | inr (inl (f, p)) ↦ (o', ground (arith, kept), sized)
        | inr (inr p) ↦ (o', ground (arith, kept), sized)
      ]

  Pending-carried :
      (ns ns' name name' : String) (s t : c.State)
      → ns' ≡ ns
      → name' ≡ name
      → ((y : Key) → c.get pod y t ≡ c.get pod y s)
      → Pending c ns name s
      → Pending c ns' name' t
  Pending-carried ns ns' name name' s t same_ns same_name frame pending p found =
      let there : c.get pod (key (migrate_pod_name name) ns) t ≡ ok p =
        subst (λ m. c.get pod (key (migrate_pod_name m) ns) t ≡ ok p) same_name
          (subst (λ m. c.get pod (key (migrate_pod_name name') m) t ≡ ok p) same_ns found) in
      pending p (sym (frame (key (migrate_pod_name name) ns)) ∙ there)

  -- With a lawful client, the reconciliation of an agent with a persistent workspace, whatever its
  -- outcome, leaves a claim that is there in place and at its size, if the agent's migration pod,
  -- where there is one at the start, has not succeeded.
  pub reconcile_agent-Kept :
      (a : ClawAgent) (s : c.State)
      → is_persistent a.spec.workspace ≡ true
      → c.get pvc x s ≡ ok o
      → Pending c a.meta.namespace a.meta.name s
      → Kept c x o (reconcile_agent c e a s).1
  unfolding reconcile_agent
  reconcile_agent-Kept a s persistent held pending =
      let read = resolve_references-state c e a s in
      let s1 = (resolve_references c e a s).1 in
      elim (Result-cases (resolve_references c e a s).0) [
        | inl ((skills, input), p) ↦
            let (_, in_ns, named) = resolve_references-about c e a s skills input p in
            let two = ensure_configs c e a skills input s1 in
            let held' : c.get pvc x two.1 ≡ ok o =
              ensure_configs-frame c e law pvc x a skills input s1 (λ q. cc)
              ∙ ap (λ t. c.get pvc x t) read
              ∙ held in
            let pending' : Pending c input.namespace input.name two.1 =
              Pending-carried a.meta.namespace input.namespace a.meta.name input.name s two.1 in_ns
                named
                (λ y.
                  ensure_configs-frame c e law pod y a skills input s1 (λ q. cc)
                  ∙ ap (λ t. c.get pod y t) read)
                pending in
            let (o', kept, sized) =
              ensure_storage-Kept a input.namespace input.name two.1 persistent held' pending' in
            elim (Result-cases two.0) [
              | inl (_, q) ↦
                  elim (Result-cases (ensure_storage c e a input.namespace input.name two.1).0) [
                    | inl (none, r) ↦ (o', ground (arith, kept), sized)
                    | inl (some (b, active_pvc), r) ↦
                        let three = ensure_storage c e a input.namespace input.name two.1 in
                        (
                          o',
                          ground (
                            arith,
                            kept,
                            ensure_workload-frame c e law pvc x a b active_pvc input three.1
                                (λ q. cc) (λ q. cc) (λ q. cc),
                          ),
                          sized,
                        )
                    | inr (inl (f, r)) ↦ (o', ground (arith, kept), sized)
                    | inr (inr r) ↦ (o', ground (arith, kept), sized)
                  ]
              | inr (inl (f, q)) ↦ (o, ground (arith, held'), refl)
              | inr (inr q) ↦ (o, ground (arith, held'), refl)
            ]
        | inr (inl (f, p)) ↦ (o, ground (arith, read), refl)
        | inr (inr p) ↦ (o, ground (arith, read), refl)
      ]
