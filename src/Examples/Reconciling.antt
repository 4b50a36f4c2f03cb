-- ===== src/Examples/Reconciling.antt =====
-- The theorems on whole reconciliations and on watches, at the clusters of Examples/Data.
use hackaway_repo.Base.{◌≡◌, refl, arith, false, ◌<◌}
use hackaway_repo.V1.Agent.{is_persistent}
use hackaway_repo.Client.{ok}
use hackaway_repo.Client.Memory.{memory, holding}
use hackaway_repo.Client.Memory.Lawfulness.{memory-Lawful, memory-Healthy}
use hackaway_repo.Agent.Volume.{key}
use hackaway_repo.Agent.Resize.{resize_pvc}
use hackaway_repo.Agent.Resize.Progress.{is_running, stage, present}
use hackaway_repo.Agent.Resize.Returns.{resize_pvc_goes_on}
use hackaway_repo.Agent.Reconcile.{reconciled, reconcile_agent, resolve_references}
use hackaway_repo.Harness.Registry.{for_type}
use hackaway_repo.Harness.OpenClaw.{openclaw}
use hackaway_repo.Agent.Deployment.{agent_deployment}
use hackaway_repo.Agent.Status.{is_available}
use hackaway_repo.Examples.Data.{orphaned, one_claim, bot, claim_named, encoding}

went_through :
    (reconcile_agent memory encoding (bot "ephemeral") (holding orphaned)).0 ≡ ok reconciled
unfolding memory holding reconcile_agent resolve_references for_type openclaw is_persistent
    agent_deployment is_available
went_through = refl

at_rest : is_running memory (key "bot" "ns") (holding one_claim) ≡ false
unfolding memory holding is_running
at_rest = refl

claim_missing : stage memory "ns" "bot" (holding one_claim) ≡ 2
unfolding memory holding stage is_running present
claim_missing = refl

step_left : 0 < stage memory "ns" "bot" (holding one_claim)
step_left = rw claim_missing (omega arith)

resize_pvc_goes_on_example :
    (resize_pvc memory
      (bot "persistent")
      (claim_named "bot-home" "5Gi")
      "ns"
      "bot"
      "bot-home"
      "10Gi"
      "delete"
      (holding one_claim)).0
    ≡ ok (bot "persistent")
resize_pvc_goes_on_example =
    resize_pvc_goes_on memory memory-Lawful memory-Healthy (holding one_claim) (bot "persistent")
      (claim_named "bot-home" "5Gi") "ns" "bot" "bot-home" "10Gi" "delete" at_rest step_left
