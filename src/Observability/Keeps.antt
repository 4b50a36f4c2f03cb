-- ===== src/Observability/Keeps.antt =====
-- What the reconciliation of observability leaves as it is.
use hackaway_repo.Base.{
  arith, String, ◌≡◌, ◌⊎◌, sym, ◌∙◌, subst, inl, inr, if◌then◌else◌, Bool, true, false,
}
use hackaway_repo.V1.Observability.{ClawObservability, ClawObservabilityStatus}
use hackaway_repo.Client.{
  Kind, config_map, deployment, service, pvc, pod, agent, channel, gateway, policy, skill_set,
  observability, Object, Key, Key-cases, key_of, Result-cases, ok, Client, M, pure, ◌>>◌,
}
use hackaway_repo.Client.Laws.{Lawful, Elsewhere}
use hackaway_repo.Ensure.{ensure_resource}
use hackaway_repo.Ensure.Laws.{Safe, then-Safe, ensure_resource-Keeps}
use hackaway_repo.Observability.Objects.{
  tempo_config_map, tempo_deployment, tempo_service, grafana_datasource_config_map,
  grafana_dashboard_config_map, grafana_dashboard_json_config_map, grafana_deployment,
  grafana_service,
}
use hackaway_repo.Observability.Reconcile.{
  is_deployment_available, ensure_tempo, ensure_grafana, ensure_stack, write_readiness,
  reconcile_observability,
}

-- The object is the resource that is reconciled, and its spec is as it was.
abbrev pub OnlyStatus :
    (c : Client) → ClawObservability → (j : Kind) → Key → Object j → c.State → Type 0
OnlyStatus c obs observability y o t =
    (y ≡ key_of observability obs)
    × ((o' : ClawObservability) × (c.get observability y t ≡ ok o') × (o.spec ≡ o'.spec))
OnlyStatus c obs _ y o t = ⊥

module _ (c : Client) (law : Lawful c) (dashboard_json : String) (obs : ClawObservability) where
  -- One of the calls that bring an object up.
  up : (k : Kind) → Object k → String → M c.State (Unit {0})
  up k o desc = ensure_resource c k obs.meta o desc

  up-Safe : (k : Kind) (o : Object k) (desc : String) → Safe c law (up k o desc)
  unfolding up
  up-Safe k o desc = ensure_resource-Keeps c law k obs.meta o desc

  ensure_tempo-Safe : Safe c law (ensure_tempo c dashboard_json obs)
  unfolding ensure_tempo up
  ensure_tempo-Safe =
      let ns = obs.meta.namespace in
      let one = up config_map (tempo_config_map ns) "tempo-config-cm" in
      let two = up deployment (tempo_deployment ns) "tempo-deployment" in
      let three = up service (tempo_service ns) "tempo-service" in
      then-Safe c law one (two >> three) (up-Safe config_map _ _)
        (then-Safe c law two three (up-Safe deployment _ _) (up-Safe service _ _))

  ensure_grafana-Safe : Safe c law (ensure_grafana c dashboard_json obs)
  unfolding ensure_grafana up
  ensure_grafana-Safe =
      let ns = obs.meta.namespace in
      let one = up config_map (grafana_datasource_config_map ns) "grafana-datasource-cm" in
      let two = up config_map (grafana_dashboard_config_map ns) "grafana-dashboard-cm" in
      let three =
        up config_map (grafana_dashboard_json_config_map dashboard_json ns)
          "grafana-dashboard-json-cm" in
      let four = up deployment (grafana_deployment ns) "grafana-deployment" in
      let five = up service (grafana_service ns) "grafana-service" in
      then-Safe c law one (two >> (three >> (four >> five))) (up-Safe config_map _ _) (
        then-Safe c law two (three >> (four >> five)) (up-Safe config_map _ _) (
          then-Safe c law three (four >> five) (up-Safe config_map _ _)
            (then-Safe c law four five (up-Safe deployment _ _) (up-Safe service _ _))))

  if-Safe :
      (b : Bool) (m : M c.State (Unit {0})) → Safe c law m → Safe c law (if b then m else pure tt)
  if-Safe true m safe s j y o there = safe s j y o there
  if-Safe false m safe s j y o there = there

  ensure_stack-Safe : Safe c law (ensure_stack c dashboard_json obs)
  unfolding ensure_stack
  ensure_stack-Safe =
      then-Safe c law
        (if obs.spec.tempo.enabled then ensure_tempo c dashboard_json obs else pure tt)
        (if obs.spec.grafana.enabled then ensure_grafana c dashboard_json obs else pure tt)
        (if-Safe obs.spec.tempo.enabled _ ensure_tempo-Safe)
        (if-Safe obs.spec.grafana.enabled _ ensure_grafana-Safe)

  after_status : ClawObservabilityStatus → c.State → c.State
  after_status status s = (c.update_status observability (record obs { status = status }) s).1

  status-Elsewhere :
      (status : ClawObservabilityStatus) (s : c.State) (j : Kind) (y : Key) (o : Object j)
      → Elsewhere observability (key_of observability obs) j y
      → c.get j y s ≡ ok o
      → (c.get j y (after_status status s) ≡ ok o) ⊎ OnlyStatus c obs j y o (after_status status s)
  unfolding after_status
  status-Elsewhere status s j y o other there = inl (
      law.update_status_elsewhere observability (record obs { status = status }) s j y other
      ∙ there)

  status_written :
      (status : ClawObservabilityStatus) (s : c.State) (j : Kind) (y : Key) (o : Object j)
      → c.get j y s ≡ ok o
      → (c.get j y (after_status status s) ≡ ok o) ⊎ OnlyStatus c obs j y o (after_status status s)
  unfolding after_status
  status_written status s observability y o there =
      let new : ClawObservability = record obs { status = status } in
      elim (Key-cases (key_of observability obs) y) [
        | inl here ↦
            let found = subst (λ x. c.get observability x s ≡ ok o) (sym here) there in
            let (o', stored, kept) = law.update_status_keeps observability new o s found in
            inr (
              sym here,
              (
                o',
                subst (λ x. c.get observability x (after_status status s) ≡ ok o') here stored,
                kept,
              ),
            )
        | inr away ↦ status-Elsewhere status s observability y o (inr away) there
      ]
  status_written status s config_map y o there =
      status-Elsewhere status s config_map y o (inl (λ e. cc)) there
  status_written status s deployment y o there =
      status-Elsewhere status s deployment y o (inl (λ e. cc)) there
  status_written status s service y o there =
      status-Elsewhere status s service y o (inl (λ e. cc)) there
  status_written status s pvc y o there = status-Elsewhere status s pvc y o (inl (λ e. cc)) there
  status_written status s pod y o there = status-Elsewhere status s pod y o (inl (λ e. cc)) there
  status_written status s agent y o there =
      status-Elsewhere status s agent y o (inl (λ e. cc)) there
  status_written status s channel y o there =
      status-Elsewhere status s channel y o (inl (λ e. cc)) there
  status_written status s gateway y o there =
      status-Elsewhere status s gateway y o (inl (λ e. cc)) there
  status_written status s policy y o there =
      status-Elsewhere status s policy y o (inl (λ e. cc)) there
  status_written status s skill_set y o there =
      status-Elsewhere status s skill_set y o (inl (λ e. cc)) there

  -- The object is as it was, or it is the resource that is reconciled, with the spec that it had.
  Kept : (j : Kind) → Key → Object j → c.State → Type 0
  Kept j y o t = (c.get j y t ≡ ok o) ⊎ OnlyStatus c obs j y o t

  write_readiness-Kept :
      (s : c.State) (j : Kind) (y : Key) (o : Object j)
      → c.get j y s ≡ ok o
      → Kept j y o (write_readiness c dashboard_json obs s).1
  unfolding Kept write_readiness after_status
  write_readiness-Kept s j y o there =
      let t = (write_readiness c dashboard_json obs s).1 in
      let same = λ (e : t ≡ s). subst (Kept j y o) (sym e) (inl there) in
      elim (Result-cases (is_deployment_available c obs.meta.namespace "tempo" s)) [
        | inl (tempo, p) ↦
            elim (Result-cases (is_deployment_available c obs.meta.namespace "grafana" s)) [
              | inl (grafana, q) ↦
                  let status : ClawObservabilityStatus = record {
                    tempo_ready = tempo;
                    grafana_ready = grafana;
                  } in
                  let written : t ≡ after_status status s = ground arith in
                  subst (Kept j y o) (sym written) (status_written status s j y o there)
              | inr (inl (e, q)) ↦ same (ground arith)
              | inr (inr q) ↦ same (ground arith)
            ]
        | inr (inl (e, p)) ↦ same (ground arith)
        | inr (inr p) ↦ same (ground arith)
      ]

  -- With a lawful client the reconciliation, whatever its outcome, changes no object that is there,
  -- but for the resource that is reconciled, which keeps its spec.
  pub reconcile_observability-keeps :
      (s : c.State) (j : Kind) (y : Key) (o : Object j)
      → c.get j y s ≡ ok o
      → let t = (reconcile_observability c dashboard_json obs s).1 in
        (c.get j y t ≡ ok o) ⊎ OnlyStatus c obs j y o t
  unfolding reconcile_observability Kept
  reconcile_observability-keeps s j y o there =
      let kept = ensure_stack-Safe s j y o there in
      let t = (ensure_stack c dashboard_json obs s).1 in
      let end = (reconcile_observability c dashboard_json obs s).1 in
      elim (Result-cases (ensure_stack c dashboard_json obs s).0) [
        | inl (_, p) ↦
            let last : end ≡ (write_readiness c dashboard_json obs t).1 = ground arith in
            subst (Kept j y o) (sym last) (write_readiness-Kept t j y o kept)
        | inr (inl (e, p)) ↦
            let last : end ≡ t = ground arith in subst (Kept j y o) (sym last) (inl kept)
        | inr (inr p) ↦
            let last : end ≡ t = ground arith in subst (Kept j y o) (sym last) (inl kept)
      ]
