-- ===== src/Examples/Starting.antt =====
-- A start of the program in which the controller of gateways cannot be set up, and a whole one.
use hackaway_repo.Base.{◌≡◌, refl, [], ◌∷◌, true, pos}
use hackaway_repo.Client.{Result, ok, err, message}
use hackaway_repo.Manager.{
  default_flags, manager_options, claw_observability, claw_agent, claw_gateway, start_api, run,
  main,
}
use hackaway_repo.Manager.Laws.{
  Step, created, configured, health_checked, ready_checked, started, served, recording,
  main-start_up,
}

abbrev refusing : Step → Result (Unit {0})
refusing (created o) = ok tt
refusing (configured claw_observability) = ok tt
refusing (configured claw_agent) = ok tt
refusing (configured claw_gateway) = err (message "no kind is registered")
refusing health_checked = ok tt
refusing ready_checked = ok tt
refusing started = ok tt
refusing (served a) = ok tt

main-start_up_example : main (recording refusing true) default_flags [] ≡ (
  1,
  created (manager_options default_flags)
      ∷ configured claw_observability
      ∷ configured claw_agent
      ∷ configured claw_gateway
      ∷ [],
)
main-start_up_example = main-start_up refusing true default_flags

-- With nothing refused, the API server is started before the manager, and the program exits with 0.
main_unrefused : main (recording (λ x. ok tt) true) default_flags [] ≡ (
  0,
  created (manager_options default_flags)
      ∷ configured claw_observability
      ∷ configured claw_agent
      ∷ configured claw_gateway
      ∷ health_checked
      ∷ ready_checked
      ∷ served (record { namespace = "clawbernetes"; port = pos 9090; has_clientset = true })
      ∷ started
      ∷ [],
)
unfolding main run start_api
main_unrefused = refl
