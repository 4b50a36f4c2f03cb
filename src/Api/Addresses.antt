-- ===== src/Api/Addresses.antt =====
-- The addresses that the API server relays to are those of the services that the controllers make.
use Prim.Native.Nat.{◌%◌}
use hackaway_repo.Base.{
  pos, is_zero, int32, ℕ, zero, suc, ◌<◌, String, ◌≡◌, refl, sym, ap, ◌∙◌, append, concat, decimal,
  some, [], ◌∷◌, false, arith,
}
use text.Mathlib.TextLemmas.{append_assoc}
use hackaway_repo.V1.Agent.{ClawAgent, A2ASpec}
use hackaway_repo.V1.Gateway.{ClawGateway}
use hackaway_repo.Kube.Objects.{Service}
use hackaway_repo.Client.{agent, gateway, service, ok, Client}
use hackaway_repo.Agent.Volume.{key}
use hackaway_repo.Agent.References.{gateway_url_of}
use hackaway_repo.Agent.Deployment.{service_ports}
use hackaway_repo.Harness.Contract.{Harness}
use hackaway_repo.Gateway.Objects.{gateway_service}
use hackaway_repo.Gateway.Reconcile.{port_of}
use hackaway_repo.Api.Chat.{
  find_service_port, cluster_url, resolve_gateway_from_cr, resolve_gateway_url,
}

gateway_url_of-cluster_url :
    (g : ClawGateway) (name ns : String)
    → cluster_url (append name "-gateway") ns (port_of g) ≡ gateway_url_of (some g) name ns
unfolding cluster_url gateway_url_of concat port_of
gateway_url_of-cluster_url g name ns = ap (append "http://") (
    append_assoc name "-gateway" (append "." rest)
    ∙ ap (append name) (sym (append_assoc "-gateway" "." rest)))
  where
    rest : String
    rest = concat (ns ∷ ".svc.cluster.local:" ∷ decimal (port_of g) ∷ [])

-- A port of a machine's range is the same as an int32.
int32_small : (n : ℕ) → n < 2147483648 → int32 (pos n) ≡ pos n
unfolding int32
int32_small n small = let same : n % 4294967296 ≡ n = omega arith in ground (arith, same)

-- So is the port of a gateway, be it given or 8443.
port_small :
    (g : ClawGateway) (n : ℕ) → g.spec.port ≡ pos n → n < 2147483648 → int32 (port_of g) ≡ port_of g
unfolding port_of
port_small g zero port small = rw port (int32_small 8443 (omega arith))
port_small g (suc n) port small = rw port (int32_small (suc n) small)

module _ (c : Client) (ns : String) (s : c.State) where
  -- When the gateway is there and its port is from 0 up to the largest int32, the URL that the API
  -- server resolves from it is the one that the controller of agents puts into configurations, and
  -- it has the name, the namespace and the port of the service that the controller of gateways
  -- makes.
  pub resolve_gateway_from_cr-gateway_service :
      (name : String) (g : ClawGateway) (n : ℕ)
      → c.get gateway (key name ns) s ≡ ok g
      → g.spec.port ≡ pos n
      → n < 2147483648
      → let svc = gateway_service ns name (port_of g) in
        ((resolve_gateway_from_cr c ns name s).0 ≡ ok (gateway_url_of (some g) name ns))
        × (gateway_url_of (some g) name ns
            ≡ cluster_url svc.meta.name svc.meta.namespace
                (find_service_port "http" svc.spec.ports))
  unfolding resolve_gateway_from_cr gateway_service find_service_port port_of
  resolve_gateway_from_cr-gateway_service name g n found port small = (
    rw found (ap ok (gateway_url_of-cluster_url g name ns)),
    sym (gateway_url_of-cluster_url g name ns)
        ∙ ap (cluster_url (append name "-gateway") ns) (sym (port_small g n port small)),
  )

  -- When the agent is there and its service has the ports that its controller gives it, for a
  -- harness with a port that is not 0, the API server relays to that port of the service.
  pub resolve_gateway_url-service_ports :
      (name : String) (a : ClawAgent) (svc : Service) (h : Harness) (a2a : A2ASpec)
      → c.get agent (key name ns) s ≡ ok a
      → c.get service (key name ns) s ≡ ok svc
      → svc.spec.ports ≡ service_ports h a2a
      → is_zero (int32 h.gateway_port) ≡ false
      → (resolve_gateway_url c ns name s).0 ≡ ok (cluster_url name ns (int32 h.gateway_port))
  unfolding resolve_gateway_url find_service_port service_ports
  resolve_gateway_url-service_ports name a svc h a2a there found ports some_port =
      let listed : find_service_port "gateway" svc.spec.ports ≡ int32 h.gateway_port =
        rw ports refl in
      ground (arith, listed)
