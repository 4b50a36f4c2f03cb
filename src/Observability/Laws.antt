-- ===== src/Observability/Laws.antt =====
-- What the reconciliation of observability leaves: the status tells which deployments are available.
use hackaway_repo.Base.{
  ◌↔◌, List, [], ◌∷◌, sym, ◌∙◌, subst, refl, Bool-cases, ◌==◌, ◌&&◌, eq_iff, String, Bool, true,
  ◌≡◌, ap, inl, inr, arith,
}
use mathlib.Core.List.{Memᴰ}
use hackaway_repo.Kube.Objects.{Deployment, DeploymentCondition}
use hackaway_repo.Agent.Status.{is_available}
use hackaway_repo.V1.Observability.{ClawObservability}
use hackaway_repo.Client.{deployment, observability, key_of, Result-cases, ok, ok-cancel, Client}
use hackaway_repo.Client.Steps.{then_ok}
use hackaway_repo.Client.Laws.{Lawful}
use hackaway_repo.Agent.Volume.{key}
use hackaway_repo.Observability.Reconcile.{
  is_deployment_available, ensure_stack, write_readiness, reconcile_observability,
}

-- The deployment is there, and one of its conditions is that it is available.
abbrev pub Available : (c : Client) → String → String → c.State → Type 0
Available c ns name s =
    (d : Deployment) × (c.get deployment (key name ns) s ≡ ok d)
    × ((q : DeploymentCondition) × Memᴰ q d.conditions
        × (q.type ≡ "Available")
        × (q.status ≡ "True"))

-- One of the conditions.
Shown : List DeploymentCondition → Type 0
Shown qs = (q : DeploymentCondition) × Memᴰ q qs × (q.type ≡ "Available") × (q.status ≡ "True")

is_available-Shown : (qs : List DeploymentCondition) → is_available qs ≡ true → Shown qs
unfolding is_available Shown
is_available-Shown [] known = absurd (ground arith)
is_available-Shown (q ∷ qs) known =
    elim (Bool-cases (q.type == "Available" && q.status == "True")) [
      | inl here ↦ (
        q,
        Memᴰ.head refl,
        (eq_iff q.type "Available").0 (ground arith),
        (eq_iff q.status "True").0 (ground arith),
      )
      | inr other ↦
          let (r, m, type, status) = is_available-Shown qs (ground arith) in
          (r, Memᴰ.tail m, type, status)
    ]

Shown-is_available : (qs : List DeploymentCondition) → Shown qs → is_available qs ≡ true
unfolding is_available Shown
Shown-is_available [] (q, m, type, status) = absurd (elim m [ ])
Shown-is_available (p ∷ qs) (q, Memᴰ.head same, type, status) =
    let type' = (eq_iff p.type "Available").1 (ap (λ x. x.type) (sym same) ∙ type) in
    let status' = (eq_iff p.status "True").1 (ap (λ x. x.status) (sym same) ∙ status) in
    ground arith
Shown-is_available (p ∷ qs) (q, Memᴰ.tail m, type, status) =
    let rest = Shown-is_available qs (q, m, type, status) in ground arith

is_deployment_available-Available :
    (c : Client) (ns name : String) (s : c.State) (b : Bool)
    → is_deployment_available c ns name s ≡ ok b
    → (b ≡ true) ↔ Available c ns name s
unfolding is_deployment_available Shown
is_deployment_available-Available c ns name s b known =
    elim (Result-cases (c.get deployment (key name ns) s)) [
      | inl (d, there) ↦
          let same : is_available d.conditions ≡ b =
            ok-cancel (is_available d.conditions) b (ground arith) in
          (
            λ ready. (d, there, is_available-Shown d.conditions (same ∙ ready)),
            λ (d', there', shown).
                let one = ok-cancel d' d (sym there' ∙ there) in
                sym same
                ∙ Shown-is_available d.conditions (subst (λ x. Shown x.conditions) one shown),
          )
      | inr (inl (e, failed)) ↦
          (λ ready. absurd (ground arith), λ (d', there', shown). absurd (ground arith))
      | inr (inr failed) ↦
          (λ ready. absurd (ground arith), λ (d', there', shown). absurd (ground arith))
    ]

module _ (c : Client) (law : Lawful c) (dashboard_json : String) (obs : ClawObservability) where
  availability_kept :
      (o : ClawObservability) (name : String) (s : c.State)
      → is_deployment_available c o.meta.namespace name (c.update_status observability o s).1
        ≡ is_deployment_available c o.meta.namespace name s
  unfolding is_deployment_available
  availability_kept o name s = ground (
    arith,
    law.update_status_elsewhere observability o s deployment (key name o.meta.namespace)
        (inl (λ e. cc)),
  )

  write_readiness_lem :
      (s : c.State)
      → (write_readiness c dashboard_json obs s).0 ≡ ok tt
      → let t = (write_readiness c dashboard_json obs s).1 in
        (o : ClawObservability) × (c.get observability (key_of observability obs) t ≡ ok o)
        × (is_deployment_available c obs.meta.namespace "tempo" t ≡ ok o.status.tempo_ready)
        × (is_deployment_available c obs.meta.namespace "grafana" t ≡ ok o.status.grafana_ready)
  unfolding write_readiness
  write_readiness_lem s done =
      elim (Result-cases (is_deployment_available c obs.meta.namespace "tempo" s)) [
        | inl (tempo, p) ↦
            elim (Result-cases (is_deployment_available c obs.meta.namespace "grafana" s)) [
              | inl (grafana, q) ↦
                  let new : ClawObservability = record obs {
                    status = record { tempo_ready = tempo; grafana_ready = grafana };
                  } in
                  let (o, found, same) = law.get_update_status observability new s (ground arith) in
                  (
                    o,
                    ground (arith, found),
                    ground (arith, availability_kept new "tempo" s, ap (λ t. t.tempo_ready) same),
                    ground
                        (arith, availability_kept new "grafana" s, ap (λ t. t.grafana_ready) same),
                  )
              | inr bad ↦ absurd (ground arith)
            ]
        | inr bad ↦ absurd (ground arith)
      ]

  -- With a lawful client, after a reconciliation that succeeds the resource is there, and its status
  -- says that Tempo, or Grafana, is ready exactly when its deployment is there with a condition of
  -- type Available whose status is True.
  pub reconcile_observability-truthful :
      (s : c.State)
      → (reconcile_observability c dashboard_json obs s).0 ≡ ok tt
      → let t = (reconcile_observability c dashboard_json obs s).1 in
        (o : ClawObservability) × (c.get observability (key_of observability obs) t ≡ ok o)
        × ((o.status.tempo_ready ≡ true) ↔ Available c obs.meta.namespace "tempo" t)
        × ((o.status.grafana_ready ≡ true) ↔ Available c obs.meta.namespace "grafana" t)
  unfolding reconcile_observability
  reconcile_observability-truthful s done =
      let (one, two, ends) =
        then_ok (ensure_stack c dashboard_json obs) (write_readiness c dashboard_json obs) s tt
          done in
      let t = (reconcile_observability c dashboard_json obs s).1 in
      let (o, there, tempo, grafana) =
        write_readiness_lem (ensure_stack c dashboard_json obs s).1 two in
      let at =
        λ (name : String) (b : Bool)
            (known : is_deployment_available c obs.meta.namespace name
                (write_readiness c dashboard_json obs (ensure_stack c dashboard_json obs s).1).1
              ≡ ok b).
          is_deployment_available-Available c obs.meta.namespace name t b
            (ap (is_deployment_available c obs.meta.namespace name) ends ∙ known) in
      (
        o,
        ap (c.get observability (key_of observability obs)) ends ∙ there,
        at "tempo" o.status.tempo_ready tempo,
        at "grafana" o.status.grafana_ready grafana,
      )
