-- ===== src/Kube/WellFormed.antt =====
-- What the API server and the kubelet ask of the objects that the controllers build.
use mathlib.Core.List.{Memᴰ}
use hackaway_repo.Base.{◌≡◌, List, [], ◌∷◌, ◌++◌, map, NoDuplicates}
use hackaway_repo.Kube.Objects.{
  VolumeMount, Volume, Container, ContainerPort, DeploymentSpec, Deployment, ServicePort, Service,
}

-- Every mount is of a volume of the pod.
abbrev pub Mounted : List VolumeMount → List Volume → Type 0
Mounted [] vs = Unit
Mounted (m ∷ ms) vs = ((v : Volume) × Memᴰ v vs × (v.name ≡ m.name)) × Mounted ms vs

abbrev pub AllMounted : List Container → List Volume → Type 0
AllMounted [] vs = Unit
AllMounted (q ∷ qs) vs = Mounted q.volume_mounts vs × AllMounted qs vs

-- A deployment selects the pods that it makes; their mounts are of volumes that they have; no two
-- volumes and no two containers go by one name.
abbrev pub WellFormed : DeploymentSpec → Type 0
WellFormed d =
    let pod = d.template_spec in
    (d.selector ≡ d.template_labels)
    × AllMounted (pod.init_containers ++ pod.containers) pod.volumes
    × NoDuplicates (map (λ v. v.name) pod.volumes)
    × NoDuplicates (map (λ q. q.name) (pod.init_containers ++ pod.containers))

abbrev pub ports_of : List Container → List ContainerPort
ports_of [] = []
ports_of (q ∷ qs) = q.ports ++ ports_of qs

-- Every port of a service leads to a port that a container opens.
abbrev pub Reached : List ServicePort → List ContainerPort → Type 0
Reached [] open_ports = Unit
Reached (p ∷ ps) open_ports =
    ((q : ContainerPort) × Memᴰ q open_ports × (q.container_port ≡ p.target_port))
    × Reached ps open_ports

-- A service in front of a deployment: it selects its pods, in its namespace, and reaches them.
abbrev pub InFront : Service → Deployment → Type 0
InFront svc d =
    (svc.meta.namespace ≡ d.meta.namespace)
    × (svc.spec.selector ≡ d.spec.template_labels)
    × Reached svc.spec.ports (ports_of d.spec.template_spec.containers)
