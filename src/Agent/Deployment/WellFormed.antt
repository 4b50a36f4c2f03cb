-- ===== src/Agent/Deployment/WellFormed.antt =====
-- The deployment and the service of an agent fit together, whatever the harness of the registry.
use mathlib.Core.List.{Memᴰ}
use hackaway_repo.Base.{
  String, ◌≡◌, refl, sym, subst, inl, inr, arith, [], ◌∷◌, ◌++◌, map, ◌==◌, Bool-cases,
  NoDuplicates, contains,
}
use hackaway_repo.Harness.Json.{Encoding}
use hackaway_repo.Harness.Contract.{Harness}
use hackaway_repo.Harness.Registry.{for_type}
use hackaway_repo.Harness.OpenClaw.{openclaw, observeclaw}
use hackaway_repo.Harness.Hermes.{hermes}
use hackaway_repo.Kube.WellFormed.{Mounted, Reached, WellFormed, InFront}
use hackaway_repo.Agent.Deployment.{
  DeploymentParams, copy_extensions, seed_workspace, harness_home_volume, main_mounts,
  main_container, main_ports, agent_volumes, agent_deployment, service_ports, agent_service,
}

container_names :
    (e : Encoding) (type : String)
    → NoDuplicates ("copy-extensions" ∷ "seed-workspace" ∷ (for_type e type).container_name ∷ [])
unfolding for_type openclaw observeclaw hermes contains
container_names e type = elim (Bool-cases (type == "observeclaw")) [
  | inl observe ↦ rw observe (refl, (refl, (refl, tt)))
  | inr other ↦ elim (Bool-cases (type == "hermes")) [
    | inl yes_hermes ↦ rw (other, yes_hermes) (refl, (refl, (refl, tt)))
    | inr neither ↦ rw (other, neither) (refl, (refl, (refl, tt)))
  ]
]

module _ (p : DeploymentParams) where
  home-name : (harness_home_volume p.active_pvc p.agent.spec.workspace.mode).name ≡ "harness-home"
  unfolding harness_home_volume
  home-name = ground arith

  init-Mounted :
      Mounted (copy_extensions p).volume_mounts (agent_volumes p)
      × Mounted (seed_workspace p).volume_mounts (agent_volumes p)
  unfolding copy_extensions seed_workspace agent_volumes
  init-Mounted = (
    ((_, Memᴰ.head refl, home-name), tt),
    (
      (_, Memᴰ.tail (Memᴰ.head refl), refl),
      (
        (_, Memᴰ.tail (Memᴰ.tail (Memᴰ.head refl)), refl),
        (
          (_, Memᴰ.tail (Memᴰ.tail (Memᴰ.tail (Memᴰ.head refl))), refl),
          ((_, Memᴰ.head refl, home-name), tt),
        ),
      ),
    ),
  )

  main-Mounted : Mounted (main_mounts p) (agent_volumes p)
  unfolding main_mounts agent_volumes
  main-Mounted = elim (Bool-cases (p.agent.spec.credentials_secret == "")) [
    | inl bare ↦ rw bare ((_, Memᴰ.head refl, home-name), tt)
    | inr secret ↦ rw secret (
      (_, Memᴰ.head refl, home-name),
      ((_, Memᴰ.tail (Memᴰ.tail (Memᴰ.tail (Memᴰ.tail (Memᴰ.head refl)))), refl), tt),
    )
  ]

  volume_names : NoDuplicates (map (λ v. v.name) (agent_volumes p))
  unfolding agent_volumes contains
  volume_names = elim (Bool-cases (p.agent.spec.credentials_secret == "")) [
    | inl bare ↦ rw (bare, home-name) (refl, (refl, (refl, (refl, tt))))
    | inr secret ↦ rw (secret, home-name) (refl, (refl, (refl, (refl, (refl, tt)))))
  ]

  all-Reached :
      Reached
        (service_ports p.harness p.agent.spec.a2a)
        (main_ports p.harness p.agent.spec.a2a ++ [])
  unfolding main_ports service_ports
  all-Reached = elim (Bool-cases p.agent.spec.a2a.enabled) [
    | inl on ↦ rw on ((_, Memᴰ.head refl, refl), ((_, Memᴰ.tail (Memᴰ.head refl), refl), tt))
    | inr off ↦ rw off ((_, Memᴰ.head refl, refl), tt)
  ]

-- The deployment of an agent with a harness of the registry selects its own pods, every mount of
-- its containers is of a volume that it declares, no two volumes and no two containers have one
-- name, and the service of the agent selects its pods and leads only to ports that they open.
pub agent_deployment-WellFormed :
    (e : Encoding) (type : String) (p : DeploymentParams)
    → p.harness ≡ for_type e type
    → WellFormed (agent_deployment p).spec
      × InFront (agent_service p.harness p.agent p.namespace p.name) (agent_deployment p)
unfolding copy_extensions seed_workspace main_container main_mounts main_ports agent_volumes
    harness_home_volume agent_deployment service_ports agent_service contains
agent_deployment-WellFormed e type p made = (
  (
    refl,
    ((init-Mounted p).0, ((init-Mounted p).1, (main-Mounted p, tt))),
    volume_names p,
    subst
        (λ (h : Harness).
          NoDuplicates ("copy-extensions" ∷ "seed-workspace" ∷ h.container_name ∷ []))
        (sym made) (container_names e type),
  ),
  (refl, refl, all-Reached p),
)
