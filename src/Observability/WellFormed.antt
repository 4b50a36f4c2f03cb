-- ===== src/Observability/WellFormed.antt =====
-- The deployments and services of Tempo and Grafana fit together.
use mathlib.Core.List.{Memᴰ}
use hackaway_repo.Base.{String, refl, contains}
use hackaway_repo.Kube.WellFormed.{WellFormed, InFront}
use hackaway_repo.Observability.Objects.{
  tempo_deployment, tempo_service, grafana_deployment, grafana_service,
}

-- The deployments of Tempo and Grafana select their own pods, every mount of their containers is of
-- a volume that they declare, no two volumes and no two containers of one have one name, and the
-- service of each selects its pods and leads only to ports that they open.
pub tempo_deployment-WellFormed :
    (ns : String)
    → (WellFormed (tempo_deployment ns).spec × InFront (tempo_service ns) (tempo_deployment ns))
      × (WellFormed (grafana_deployment ns).spec
          × InFront (grafana_service ns) (grafana_deployment ns))
unfolding tempo_deployment tempo_service grafana_deployment grafana_service contains
tempo_deployment-WellFormed ns = (
  (
    (refl, (((_, Memᴰ.head refl, refl), tt), tt), (refl, tt), (refl, tt)),
    (refl, refl, ((_, Memᴰ.head refl, refl), ((_, Memᴰ.tail (Memᴰ.head refl), refl), tt))),
  ),
  (
    (
      refl,
      (
        (
          (_, Memᴰ.head refl, refl),
          (
            (_, Memᴰ.tail (Memᴰ.head refl), refl),
            ((_, Memᴰ.tail (Memᴰ.tail (Memᴰ.head refl)), refl), tt),
          ),
        ),
        tt,
      ),
      (refl, (refl, (refl, tt))),
      (refl, tt),
    ),
    (refl, refl, ((_, Memᴰ.head refl, refl), tt)),
  ),
)
