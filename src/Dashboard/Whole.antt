-- ===== src/Dashboard/Whole.antt =====
-- The whole of `Reconcile`, from the key of an agent to the dashboard.
use hackaway_repo.Base.{String, ◌≡◌, ◌≢◌, refl, sym, ◌∙◌, subst, inl, inr, arith, true}
use hackaway_repo.Kube.Objects.{Pvc}
use hackaway_repo.V1.Agent.{ClawAgent, is_persistent}
use hackaway_repo.Client.{
  Kind, config_map, deployment, service, agent, pvc, Key, key_of, Result-cases, ok, Client,
}
use hackaway_repo.Client.Laws.{Lawful, Elsewhere}
use hackaway_repo.Harness.Json.{Encoding}
use hackaway_repo.Agent.Storage.Keeps.{Kept, Pending}
use hackaway_repo.Agent.Reconcile.{Outcome, gone, requeue, reconciled, reconcile_agent}
use hackaway_repo.Agent.Reconcile.Claims.{reconcile_agent-Kept}
use hackaway_repo.Agent.Ensure.Laws.{Holds-carried}
use hackaway_repo.Agent.Reconcile.Desired.{Configured-carried}
use hackaway_repo.Agent.Reconcile.Workload.{
  wanted_deployment, wanted_service, resolve_agent_status-reads,
}
use hackaway_repo.Agent.Reconcile.Provisioned.{
  claim_in_use, Provisioned, reconcile_agent-Provisioned,
}
use hackaway_repo.Dashboard.Update.{Controller, update_fleet_dashboard}
use hackaway_repo.Dashboard.Steps.{place}
use hackaway_repo.Dashboard.Loop.{reconcile, then_dashboard}
use hackaway_repo.Dashboard.Frames.{update_fleet_dashboard-Leaves}

module _ (c : Client) (e : Encoding) (law : Lawful c) (sha256_hex : String → String) where
  then_dashboard-Leaves :
      (ns : String) (j : Kind) (x : Key) (o : Outcome) (r : Controller c.State)
      → Elsewhere config_map (place c sha256_hex ns) j x
      → c.get j x (then_dashboard c e sha256_hex ns o r).1.cluster ≡ c.get j x r.cluster
  unfolding then_dashboard
  then_dashboard-Leaves ns j x gone r away = refl
  then_dashboard-Leaves ns j x requeue r away = refl
  then_dashboard-Leaves ns j x reconciled r away =
      let same = update_fleet_dashboard-Leaves c law sha256_hex ns j x away r in
      elim (Result-cases (update_fleet_dashboard c sha256_hex ns r).0) [
        | inl (_, p) ↦ ground (arith, same)
        | inr (inl (f, p)) ↦ ground (arith, same)
        | inr (inr p) ↦ ground (arith, same)
      ]

  -- The agent's reconciliation, and after it what the dashboard changes.
  reconcile-Leaves :
      (a : ClawAgent) (x : Key) (r : Controller c.State) (j : Kind) (y : Key)
      → c.get agent x r.cluster ≡ ok a
      → Elsewhere config_map (place c sha256_hex a.meta.namespace) j y
      → c.get j y (reconcile c e sha256_hex x r).1.cluster
        ≡ c.get j y (reconcile_agent c e a r.cluster).1
  unfolding reconcile
  reconcile-Leaves a x r j y found away =
      let t : Controller c.State = record r { cluster = (reconcile_agent c e a r.cluster).1 } in
      elim (Result-cases (reconcile_agent c e a r.cluster).0) [
        | inl (o, p) ↦ ground (arith, found, then_dashboard-Leaves a.meta.namespace j y o t away)
        | inr (inl (f, p)) ↦ ground (arith, found)
        | inr (inr p) ↦ ground (arith, found)
      ]

  -- With a lawful client, when a reconciliation reads an agent with a persistent workspace, then,
  -- whatever the outcome, it leaves a claim that is there in place and at its size, if the agent's
  -- migration pod, where there is one at the start, has not succeeded.
  pub reconcile-Kept :
      (a : ClawAgent) (x y : Key) (o : Pvc) (r : Controller c.State)
      → c.get agent x r.cluster ≡ ok a
      → is_persistent a.spec.workspace ≡ true
      → c.get pvc y r.cluster ≡ ok o
      → Pending c a.meta.namespace a.meta.name r.cluster
      → Kept c y o (reconcile c e sha256_hex x r).1.cluster
  reconcile-Kept a x y o r found persistent held pending =
      let (o', there, sized) =
        reconcile_agent-Kept c e law y o a r.cluster persistent held pending in
      (o', reconcile-Leaves a x r pvc y found (inl (λ q. cc)) ∙ there, sized)

  went_through :
      (a : ClawAgent) (x : Key) (r : Controller c.State)
      → c.get agent x r.cluster ≡ ok a
      → (reconcile c e sha256_hex x r).0 ≡ ok reconciled
      → (reconcile_agent c e a r.cluster).0 ≡ ok reconciled
  unfolding reconcile then_dashboard
  went_through a x r found done = elim (Result-cases (reconcile_agent c e a r.cluster).0) [
    | inl (gone, p) ↦ absurd (ground (arith, found))
    | inl (requeue, p) ↦ absurd (ground (arith, found))
    | inl (reconciled, p) ↦ p
    | inr other ↦ absurd (ground (arith, found))
  ]

  pub reconcile-Provisioned :
      (a : ClawAgent) (x : Key) (r : Controller c.State)
      → c.get agent x r.cluster ≡ ok a
      → (reconcile c e sha256_hex x r).0 ≡ ok reconciled
      → Provisioned c e a r.cluster (reconcile c e sha256_hex x r).1.cluster
  reconcile-Provisioned a x r found done =
      let s = (reconcile_agent c e a r.cluster).1 in
      let t = (reconcile c e sha256_hex x r).1.cluster in
      let there : c.get agent (key_of agent a) r.cluster ≡ ok a =
        subst (λ y. c.get agent y r.cluster ≡ ok a) (sym (law.get_key agent x r.cluster a found))
          found in
      let (
        skills,
        input,
        b,
        resolved,
        alike,
        configured,
        (dep, svc),
        (phase, pod_name, seen, (o, stored, known)),
      ) =
        reconcile_agent-Provisioned c e law a r.cluster there (went_through a x r found done) in
      let elsewhere = λ (k : Kind) (y : Key) (other : config_map ≢ k).
        reconcile-Leaves a x r k y found (inl other) in
      let active = claim_in_use b input.name in
      (
        skills,
        input,
        b,
        resolved,
        alike,
        Configured-carried c e law a skills input a.meta.namespace s t
            (λ y away. reconcile-Leaves a x r config_map y found (inr away)) configured,
        (
          Holds-carried c deployment (wanted_deployment e b active input) s t
              (elsewhere deployment _ (λ q. cc)) dep,
          Holds-carried c service (wanted_service e b input) s t (elsewhere service _ (λ q. cc))
              svc,
        ),
        (
          phase,
          pod_name,
          resolve_agent_status-reads c e law input.namespace input.name s t
                (elsewhere deployment _ (λ q. cc))
              ∙ seen,
          (o, elsewhere agent _ (λ q. cc) ∙ stored, known),
        ),
      )
