-- ===== src/Gateway/Laws.antt =====
-- What the reconciliation of a gateway leaves.
use hackaway_repo.Base.{
  List, [], ◌∷◌, ◌≢◌, ◌⊎◌, Bool-cases, Option-cases, ◌==◌, eq_iff, subst, String, Option, none,
  some, ◌≡◌, ◌∙◌, inl, inr, arith, append,
}
use hackaway_repo.V1.Gateway.{ClawGateway, GatewayEvaluatorSpec}
use hackaway_repo.Client.{
  Kind, Object, config_map, deployment, service, Key, Result-cases, ok, Client, M, ◌>>◌,
}
use hackaway_repo.Client.Steps.{then_ok}
use hackaway_repo.Client.Laws.{Lawful}
use hackaway_repo.Ensure.{ensure_resource}
use hackaway_repo.Ensure.Laws.{
  There, Keeps, There-Keeps, Safe, then-Safe, ensure_resource-Keeps, ensure_resource-There,
}
use hackaway_repo.Gateway.Objects.{
  gateway_script_config_map, gateway_deployment, gateway_service, ollama_deployment, ollama_service,
}
use hackaway_repo.Gateway.Reconcile.{
  port_of, ollama_model, ollama_endpoint_of, parsed_resources, ensure_ollama, ensure_gateway,
  reconcile_gateway,
}

abbrev pub named : ClawGateway → String → Key
named gw suffix = record { name = append gw.meta.name suffix; namespace = gw.meta.namespace }

-- Where a model of Ollama is wanted, its deployment and its service are there.
unfoldable ModelThere : (c : Client) → ClawGateway → Option String → c.State → Type 0
ModelThere c gw none t = Unit
ModelThere c gw (some model) t =
    There c deployment (named gw "-ollama") t × There c service (named gw "-ollama") t

-- Of each evaluator: it is no classifier, it has no Ollama endpoint, or the deployment and the service
-- of Ollama are there.
abbrev pub OllamaThere : (c : Client) → ClawGateway → List GatewayEvaluatorSpec → c.State → Type 0
OllamaThere c gw [] t = Unit
OllamaThere c gw (ev ∷ evs) t =
    ((ev.type ≢ "classifier")
      ⊎ (ev.ollama_endpoint ≡ "")
      ⊎ (There c deployment (named gw "-ollama") t × There c service (named gw "-ollama") t))
    × OllamaThere c gw evs t

module _ (c : Client) (gw : ClawGateway) (t : c.State) where
  up-OllamaThere :
      (evs : List GatewayEvaluatorSpec)
      → There c deployment (named gw "-ollama") t × There c service (named gw "-ollama") t
      → OllamaThere c gw evs t
  up-OllamaThere [] there = tt
  up-OllamaThere (ev ∷ evs) there = (inr (inr there), up-OllamaThere evs there)

  unasked-OllamaThere :
      (evs : List GatewayEvaluatorSpec) → ollama_model evs ≡ none → OllamaThere c gw evs t
  unfolding ollama_model
  unasked-OllamaThere [] unasked = tt
  unasked-OllamaThere (ev ∷ evs) unasked = elim (Bool-cases (ev.type == "classifier")) [
    | inl classifier ↦ elim (Bool-cases (ev.ollama_endpoint == "")) [
      | inl empty ↦ (
        inr (inl ((eq_iff ev.ollama_endpoint "").0 empty)),
        unasked-OllamaThere evs (ground arith),
      )
      | inr given ↦ absurd (ground arith)
    ]
    | inr other ↦ (
      inl (λ same. absurd (ground (arith, (eq_iff ev.type "classifier").1 same))),
      unasked-OllamaThere evs (ground arith),
    )
  ]

  ModelThere-OllamaThere :
      (evs : List GatewayEvaluatorSpec)
      → ModelThere c gw (ollama_model evs) t
      → OllamaThere c gw evs t
  unfolding ModelThere
  ModelThere-OllamaThere evs there = elim (Option-cases (ollama_model evs)) [
    | inl unasked ↦ unasked-OllamaThere evs unasked
    | inr (model, asked) ↦ up-OllamaThere evs (subst (λ m. ModelThere c gw m t) asked there)
  ]

module _ (c : Client) (law : Lawful c) (gw : ClawGateway) where
  ensure_ollama-Safe : (model : Option String) → Safe c law (ensure_ollama c gw model)
  unfolding ensure_ollama
  ensure_ollama-Safe none s j y o there = there
  ensure_ollama-Safe (some model) s j y o there = elim (Result-cases (parsed_resources c)) [
    | inl (r, e) ↦ rw e (
        then-Safe c law
          (ensure_resource c deployment gw.meta
            (ollama_deployment r gw.meta.namespace gw.meta.name model) "ollama-deployment")
          (ensure_resource c service gw.meta (ollama_service gw.meta.namespace gw.meta.name)
            "ollama-service")
          (ensure_resource-Keeps c law deployment gw.meta _ "ollama-deployment")
          (ensure_resource-Keeps c law service gw.meta _ "ollama-service") s j y o there)
    | inr (inl (f, e)) ↦ rw e there
    | inr (inr e) ↦ rw e there
  ]

  script : M c.State (Unit {0})
  script =
      ensure_resource c config_map gw.meta
        (gateway_script_config_map gw.meta.namespace gw.meta.name) "gateway-script-cm"

  workload : Option String → M c.State (Unit {0})
  workload model =
      ensure_resource c deployment gw.meta
        (gateway_deployment gw.spec.routing.evaluators gw.meta.namespace gw.meta.name (port_of gw)
          (ollama_endpoint_of model gw.meta.namespace gw.meta.name))
        "gateway-deployment"

  front : M c.State (Unit {0})
  front =
      ensure_resource c service gw.meta
        (gateway_service gw.meta.namespace gw.meta.name (port_of gw)) "gateway-service"

  ensure_gateway-Safe : (model : Option String) → Safe c law (ensure_gateway c gw model)
  unfolding ensure_gateway script workload front
  ensure_gateway-Safe model =
      then-Safe c law script (workload model >> front)
        (ensure_resource-Keeps c law config_map gw.meta _ "gateway-script-cm")
        (then-Safe c law (workload model) front
          (ensure_resource-Keeps c law deployment gw.meta _ "gateway-deployment")
          (ensure_resource-Keeps c law service gw.meta _ "gateway-service"))

  -- With a lawful client the reconciliation of a gateway, whatever its outcome, changes no object
  -- that is there, so that a change of the gateway's spec does not reach the objects made before.
  pub reconcile_gateway-Keeps :
      (s : c.State) (j : Kind) (y : Key) (o : Object j)
      → c.get j y s ≡ ok o
      → c.get j y (reconcile_gateway c gw s).1 ≡ ok o
  unfolding reconcile_gateway
  reconcile_gateway-Keeps =
      let model = ollama_model gw.spec.routing.evaluators in
      then-Safe c law (ensure_ollama c gw model) (ensure_gateway c gw model)
        (ensure_ollama-Safe model) (ensure_gateway-Safe model)

  ensure_gateway-There :
      (model : Option String) (s : c.State)
      → (ensure_gateway c gw model s).0 ≡ ok tt
      → let t = (ensure_gateway c gw model s).1 in
        There c config_map (named gw "-gateway-script") t
        × There c deployment (named gw "-gateway") t
        × There c service (named gw "-gateway") t
  unfolding ensure_gateway gateway_script_config_map gateway_deployment gateway_service script
      workload front
  ensure_gateway-There model s done =
      let (one, rest, ends) = then_ok script (workload model >> front) s tt done in
      let t = (script s).1 in
      let (two, three, ends') = then_ok (workload model) front t tt rest in
      let u = (workload model t).1 in
      let is_last = ends ∙ ends' in
      let last_keeps =
        ensure_resource-Keeps c law service gw.meta
          (gateway_service gw.meta.namespace gw.meta.name (port_of gw)) "gateway-service" u in
      let (f, front_there) =
        ensure_resource-There c law service gw.meta _ "gateway-service" u three in
      let (w, work_there) =
        There-Keeps c deployment (named gw "-gateway") u (front u).1 last_keeps
          (ensure_resource-There c law deployment gw.meta _ "gateway-deployment" t two) in
      let (k, script_there) =
        There-Keeps c config_map (named gw "-gateway-script") u (front u).1 last_keeps (
          There-Keeps c config_map (named gw "-gateway-script") t u
            (ensure_resource-Keeps c law deployment gw.meta
              (gateway_deployment gw.spec.routing.evaluators gw.meta.namespace gw.meta.name
                (port_of gw) (ollama_endpoint_of model gw.meta.namespace gw.meta.name))
              "gateway-deployment" t)
            (ensure_resource-There c law config_map gw.meta _ "gateway-script-cm" s one)) in
      rw is_last ((k, script_there), (w, work_there), (f, front_there))

  ensure_ollama-There :
      (model : String) (s : c.State)
      → (ensure_ollama c gw (some model) s).0 ≡ ok tt
      → let t = (ensure_ollama c gw (some model) s).1 in
        There c deployment (named gw "-ollama") t × There c service (named gw "-ollama") t
  unfolding ensure_ollama ollama_deployment ollama_service
  ensure_ollama-There model s done = elim (Result-cases (parsed_resources c)) [
    | inl (r, e) ↦
        let dep = ollama_deployment r gw.meta.namespace gw.meta.name model in
        let svc = ollama_service gw.meta.namespace gw.meta.name in
        let first = ensure_resource c deployment gw.meta dep "ollama-deployment" in
        let (one, two, ends) =
          then_ok first (ensure_resource c service gw.meta svc "ollama-service") s tt
            (rw e at done) in
        rw (e, ends)
          (
            There-Keeps c deployment (named gw "-ollama") (first s).1 _
                (ensure_resource-Keeps c law service gw.meta svc "ollama-service" (first s).1)
                (ensure_resource-There c law deployment gw.meta dep "ollama-deployment" s one),
            ensure_resource-There c law service gw.meta svc "ollama-service" (first s).1 two,
          )
    | inr (inl (f, e)) ↦ absurd (ground arith)
    | inr (inr e) ↦ absurd (ground arith)
  ]

  ModelThere-Keeps :
      (model : Option String) (t u : c.State)
      → Keeps c t u
      → ModelThere c gw model t
      → ModelThere c gw model u
  unfolding ModelThere
  ModelThere-Keeps none t u keeps there = tt
  ModelThere-Keeps (some model) t u keeps (dep, svc) = (
    There-Keeps c deployment (named gw "-ollama") t u keeps dep,
    There-Keeps c service (named gw "-ollama") t u keeps svc,
  )

  ensure_ollama-ModelThere :
      (model : Option String) (s : c.State)
      → (ensure_ollama c gw model s).0 ≡ ok tt
      → ModelThere c gw model (ensure_ollama c gw model s).1
  unfolding ModelThere
  ensure_ollama-ModelThere none s done = tt
  ensure_ollama-ModelThere (some model) s done = ensure_ollama-There model s done

  -- With a lawful client, after a reconciliation that succeeds the script, the deployment and the
  -- service of the gateway are there, and so are Ollama's deployment and service when any classifier
  -- of the spec, not only the first, has an Ollama endpoint.
  pub reconcile_gateway-There :
      (s : c.State)
      → (reconcile_gateway c gw s).0 ≡ ok tt
      → let t = (reconcile_gateway c gw s).1 in
        There c config_map (named gw "-gateway-script") t
        × There c deployment (named gw "-gateway") t
        × There c service (named gw "-gateway") t
        × OllamaThere c gw gw.spec.routing.evaluators t
  unfolding reconcile_gateway
  reconcile_gateway-There s done =
      let model = ollama_model gw.spec.routing.evaluators in
      let (one, two, ends) =
        then_ok (ensure_ollama c gw model) (ensure_gateway c gw model) s tt done in
      let t = (ensure_ollama c gw model s).1 in
      let keeps = ensure_gateway-Safe model t in
      let (a, b, d) = ensure_gateway-There model t two in
      rw ends (
        a,
        b,
        d,
        ModelThere-OllamaThere c gw _ gw.spec.routing.evaluators
            (ModelThere-Keeps model t _ keeps (ensure_ollama-ModelThere model s one)),
      )
