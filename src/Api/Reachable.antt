-- ===== src/Api/Reachable.antt =====
-- From the controller of agents to the API server: the address that a chat with a reconciled agent is
-- relayed to.
use hackaway_repo.Base.{
  int32, is_zero, String, false, ◌≡◌, refl, sym, ap, ◌∙◌, subst, inl, inr, Bool-cases, ◌==◌,
}
use hackaway_repo.V1.Agent.{ClawAgent}
use hackaway_repo.Client.{agent, service, Key, key_of, ok, Client}
use hackaway_repo.Client.Laws.{Lawful}
use hackaway_repo.Harness.Json.{Encoding}
use hackaway_repo.Harness.OpenClaw.{openclaw, observeclaw}
use hackaway_repo.Harness.Hermes.{hermes}
use hackaway_repo.Harness.Registry.{for_type}
use hackaway_repo.Agent.Volume.{key}
use hackaway_repo.Agent.Deployment.{agent_service}
use hackaway_repo.Agent.Reconcile.{reconciled}
use hackaway_repo.Agent.Reconcile.Reading.{resolve_references-about}
use hackaway_repo.Dashboard.Update.{Controller}
use hackaway_repo.Dashboard.Loop.{reconcile}
use hackaway_repo.Dashboard.Whole.{reconcile-Provisioned}
use hackaway_repo.Api.Chat.{cluster_url, resolve_gateway_url}
use hackaway_repo.Api.Addresses.{resolve_gateway_url-service_ports}

-- Every harness of the registry has a port.
harness_port :
    (e : Encoding) (type : String) → is_zero (int32 (for_type e type).gateway_port) ≡ false
unfolding for_type openclaw observeclaw hermes int32
harness_port e type = elim (Bool-cases (type == "observeclaw")) [
  | inl observe ↦ rw observe refl
  | inr other ↦ elim (Bool-cases (type == "hermes")) [
    | inl yes_hermes ↦ rw (other, yes_hermes) refl
    | inr neither ↦ rw (other, neither) refl
  ]
]

-- With a lawful client, when a reconciliation reads an agent and goes to its end, the API server
-- relays a chat with the agent to the service of its name, at the gateway port of its harness.
pub reconcile-resolve_gateway_url :
    (c : Client) (e : Encoding) (law : Lawful c) (sha256_hex : String → String) (a : ClawAgent)
    (x : Key) (r : Controller c.State)
    → c.get agent x r.cluster ≡ ok a
    → (reconcile c e sha256_hex x r).0 ≡ ok reconciled
    → (resolve_gateway_url c a.meta.namespace a.meta.name
        (reconcile c e sha256_hex x r).1.cluster).0
      ≡ ok (
          cluster_url a.meta.name a.meta.namespace
            (int32 (for_type e a.spec.harness.type).gateway_port))
unfolding agent_service
reconcile-resolve_gateway_url c e law sha256_hex a x r found done =
    let s' = (reconcile c e sha256_hex x r).1.cluster in
    let (
      skills,
      input,
      b,
      resolved,
      alike,
      _,
      (_, (svc, served, (ports, _))),
      (_, _, _, (o, stored, _)),
    ) =
      reconcile-Provisioned c e law sha256_hex a x r found done in
    let (_, in_ns, named) = resolve_references-about c e a r.cluster skills input resolved in
    let h = for_type e b.spec.harness.type in
    let same_agent : key_of agent b ≡ key a.meta.name a.meta.namespace = cc in
    let same_service : key input.name input.namespace ≡ key a.meta.name a.meta.namespace = cc in
    let relayed =
      resolve_gateway_url-service_ports c a.meta.namespace s' a.meta.name o svc h b.spec.a2a
        (subst (λ y. c.get agent y s' ≡ ok o) same_agent stored)
        (subst (λ y. c.get service y s' ≡ ok svc) same_service served) (sym ports)
        (harness_port e b.spec.harness.type) in
    relayed
    ∙ ap
        (λ spec. ok (
          cluster_url a.meta.name a.meta.namespace
            (int32 (for_type e spec.harness.type).gateway_port)))
        alike.1
