-- ===== src/Agent/Labels.antt =====
-- internal/controller/clawagent_controller.go: the labels of an agent's objects.
use hackaway_repo.Base.{String, [], ◌∷◌}
use hackaway_repo.Kube.Objects.{Labels}

unfoldable pub agent_labels : String → Labels
agent_labels name =
    ("app", name)
    ∷ ("clawbernetes.io/agent", name)
    ∷ ("app.kubernetes.io/managed-by", "clawbernetes")
    ∷ []
