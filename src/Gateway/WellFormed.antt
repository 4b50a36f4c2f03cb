-- ===== src/Gateway/WellFormed.antt =====
-- The deployments and services of a gateway and of its Ollama fit together.
use mathlib.Core.List.{Memᴰ}
use hackaway_repo.Base.{ℤ, String, List, refl, contains}
use hackaway_repo.Kube.Objects.{ResourceRequirements}
use hackaway_repo.Kube.WellFormed.{WellFormed, InFront}
use hackaway_repo.V1.Gateway.{GatewayEvaluatorSpec}
use hackaway_repo.Gateway.Objects.{
  install_deps, gateway_container, gateway_deployment, gateway_service, ollama_deployment,
  ollama_service,
}

-- The deployment of a gateway and that of its Ollama select their own pods, every mount of their
-- containers is of a volume that they declare, no two volumes and no two containers of one have one
-- name, and the service of each selects its pods and leads only to ports that they open.
pub gateway_deployment-WellFormed :
    (evaluators : List GatewayEvaluatorSpec) (ns name : String) (port : ℤ) (endpoint : String)
    (resources : ResourceRequirements) (model : String)
    → (WellFormed (gateway_deployment evaluators ns name port endpoint).spec
        × InFront
            (gateway_service ns name port)
            (gateway_deployment evaluators ns name port endpoint))
      × (WellFormed (ollama_deployment resources ns name model).spec
          × InFront (ollama_service ns name) (ollama_deployment resources ns name model))
unfolding install_deps gateway_container gateway_deployment gateway_service ollama_deployment
    ollama_service contains
gateway_deployment-WellFormed evaluators ns name port endpoint resources model = (
  (
    (
      refl,
      (
        ((_, Memᴰ.tail (Memᴰ.head refl), refl), tt),
        (((_, Memᴰ.head refl, refl), ((_, Memᴰ.tail (Memᴰ.head refl), refl), tt)), tt),
      ),
      (refl, (refl, tt)),
      (refl, (refl, tt)),
    ),
    (refl, refl, ((_, Memᴰ.head refl, refl), tt)),
  ),
  ((refl, (tt, tt), tt, (refl, tt)), (refl, refl, ((_, Memᴰ.head refl, refl), tt))),
)
