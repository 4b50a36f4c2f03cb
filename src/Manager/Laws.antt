-- ===== src/Manager/Laws.antt =====
-- The start of the program over libraries that keep a record of the calls, whatever these answer.
use mathlib.Core.List.{append_assoc}
use hackaway_repo.Base.{inl, inr, List, [], ◌∷◌, ◌++◌, ◌≡◌, ap, pos, Bool, arith}
use hackaway_repo.Client.{Result, Result-cases, ok, err, panic, M, ◌>>◌}
use hackaway_repo.Manager.{
  Flags, ManagerOptions, manager_options, ApiServer, Reconciler, claw_observability, claw_agent,
  claw_gateway, Runtime, exit_code, start_api, run, main,
}

pub data Step : Type 0 where
  created : ManagerOptions → Step
  configured : Reconciler → Step
  health_checked ready_checked started : Step
  served : ApiServer → Step

-- The start of a goroutine does not fail.
abbrev pub outcome_of : (Step → Result (Unit {0})) → Step → Result (Unit {0})
outcome_of outcome (created o) = outcome (created o)
outcome_of outcome (configured r) = outcome (configured r)
outcome_of outcome health_checked = outcome health_checked
outcome_of outcome ready_checked = outcome ready_checked
outcome_of outcome started = outcome started
outcome_of outcome (served a) = ok tt

-- The state is the list of the calls so far.
abbrev pub called : (Step → Result (Unit {0})) → Step → M (List Step) (Unit {0})
called outcome x log = (outcome_of outcome x, log ++ x ∷ [])

abbrev pub recording : (Step → Result (Unit {0})) → Bool → Runtime
recording outcome configurable = record {
  State = List Step;
  new_manager = λ o. called outcome (created o);
  set_up = λ r. called outcome (configured r);
  add_healthz_check = called outcome health_checked;
  add_readyz_check = called outcome ready_checked;
  has_config = λ log. configurable;
  launch = λ a log. log ++ served a ∷ [];
  start = called outcome started;
}

-- Every call of a start in which none fails; the manager is created first.
abbrev after_creation : Bool → List Step
after_creation configurable =
    configured claw_observability
    ∷ configured claw_agent
    ∷ configured claw_gateway
    ∷ health_checked
    ∷ ready_checked
    ∷ served (record { namespace = "clawbernetes"; port = pos 9090; has_clientset = configurable })
    ∷ started
    ∷ []

abbrev pub start_up : Flags → Bool → List Step
start_up f configurable = created (manager_options f) ∷ after_creation configurable

-- The calls up to the first that fails, which is the last one made.
abbrev pub made : (Step → Result (Unit {0})) → List Step → List Step
made outcome [] = []
made outcome (x ∷ xs) =
    x ∷ elim (outcome_of outcome x) [ ok _ ↦ made outcome xs | err _ ↦ [] | panic ↦ [] ]

-- What the first call that fails answers.
abbrev pub first_failure : (Step → Result (Unit {0})) → List Step → Result (Unit {0})
first_failure outcome [] = ok tt
first_failure outcome (x ∷ xs) = elim (outcome_of outcome x) [
  | ok _ ↦ first_failure outcome xs
  | err e ↦ err e
  | panic ↦ panic
]

module _ (outcome : Step → Result (Unit {0})) where
  -- The calls of a list, one after the other.
  abbrev in_turn : Step → List Step → M (List Step) (Unit {0})
  in_turn x [] = called outcome x
  in_turn x (y ∷ ys) = called outcome x >> in_turn y ys

  in_turn_lem :
      (x : Step) (xs : List Step) (log : List Step)
      → in_turn x xs log ≡ (first_failure outcome (x ∷ xs), log ++ made outcome (x ∷ xs))
  in_turn_lem x [] log = elim (Result-cases (outcome_of outcome x)) [
    | inl (u, e) ↦ ground arith
    | inr (inl (_, e)) ↦ ground arith
    | inr (inr e) ↦ ground arith
  ]
  in_turn_lem x (y ∷ ys) log = elim (Result-cases (outcome_of outcome x)) [
    | inl (u, e) ↦
        let rest = in_turn_lem y ys (log ++ x ∷ []) in
        let joined = append_assoc log (x ∷ []) (made outcome (y ∷ ys)) in
        ground (rest, joined, arith)
    | inr (inl (_, e)) ↦ ground arith
    | inr (inr e) ↦ ground arith
  ]

  -- The program makes its calls in one order, the controllers before the API server and this before
  -- the start of the manager, and none after one that fails; it exits with 0 if none fails, with 1
  -- for the first error and with 2 for a panic.
  pub main-start_up :
      (configurable : Bool) (f : Flags)
      → main (recording outcome configurable) f [] ≡ (
        exit_code (first_failure outcome (start_up f configurable)),
        made outcome (start_up f configurable),
      )
  unfolding main run start_api
  main-start_up configurable f =
      ap (λ o. (exit_code o.0, o.1))
        (in_turn_lem (created (manager_options f)) (after_creation configurable) [])
