-- ===== src/Agent/Status.antt =====
-- internal/controller/clawagent_controller.go, `resolveAgentStatus`.
use hackaway_repo.Base.{
  is_pos, String, Bool, false, List, [], ◌∷◌, ◌==◌, ◌&&◌, ◌||◌, concat, decimal, if◌then◌else◌,
}
use hackaway_repo.Kube.Objects.{Deployment, DeploymentCondition}
use hackaway_repo.Client.{deployment, ok, err, panic, Result, Client}
use hackaway_repo.Agent.Volume.{key}

-- A condition `Available` that is `True`.
unfoldable pub is_available : List DeploymentCondition → Bool
is_available [] = false
is_available (c ∷ cs) = (c.type == "Available" && c.status == "True") || is_available cs

unfoldable pub status_of : String → Deployment → String × String
status_of name d =
    if is_available d.conditions
    then ("Running", concat (name ∷ " (replicas: " ∷ decimal d.ready_replicas ∷ ")" ∷ []))
    else (if is_pos d.unavailable_replicas then ("Progressing", "") else ("Pending", ""))

-- The phase and the pod's name. Any error of the read counts as `Pending`.
unfoldable pub resolve_agent_status :
    (c : Client) → String → String → c.State → Result (String × String)
unfolding status_of
resolve_agent_status c ns name s = elim (c.get deployment (key name ns) s) [
  | ok d ↦ ok (status_of name d)
  | err _ ↦ ok ("Pending", "")
  | panic ↦ panic
]
