-- ===== src/Dashboard/Loop.antt =====
-- internal/controller/clawagent_controller.go, `Reconcile` as a whole: the reconciliation of the
-- agent, and then the dashboard, whose error is dropped.
use hackaway_repo.Base.{String, if◌then◌else◌}
use hackaway_repo.Client.{agent, Key, is_not_found, Client, M, pure, fail, ◌>>=◌, attempt, reads}
use hackaway_repo.Harness.Json.{Encoding}
use hackaway_repo.Agent.Reconcile.{Outcome, gone, requeue, reconciled, reconcile_agent}
use hackaway_repo.Dashboard.Update.{Controller, on_cluster, update_fleet_dashboard}

module _ (c : Client) (e : Encoding) (sha256_hex : String → String) where
  open c use {State, get}

  -- After a reconciliation that goes to its end.
  unfoldable pub then_dashboard : String → Outcome → M (Controller State) Outcome
  unfolding update_fleet_dashboard
  then_dashboard ns gone = pure gone
  then_dashboard ns requeue = pure requeue
  then_dashboard ns reconciled =
      attempt (update_fleet_dashboard c sha256_hex ns) (λ _. pure reconciled) (λ _. pure reconciled)

  -- An agent that is not there is passed over.
  unfoldable pub reconcile : Key → M (Controller State) Outcome
  unfolding reconcile_agent then_dashboard
  reconcile x =
      attempt (on_cluster (reads (get agent x)))
        (λ a. on_cluster (reconcile_agent c e a) >>= then_dashboard a.meta.namespace)
        λ f. if is_not_found f then pure gone else fail f
