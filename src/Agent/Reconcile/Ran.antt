-- ===== src/Agent/Reconcile/Ran.antt =====
-- A reconciliation that goes to its end, taken apart into its four parts.
use hackaway_repo.Base.{String, ◌≡◌, inl, inr, arith, List, some, none}
use hackaway_repo.V1.Agent.{ClawAgent}
use hackaway_repo.V1.SkillSet.{SkillEntry}
use hackaway_repo.Client.{ok, Result-cases, Client}
use hackaway_repo.Harness.Json.{Encoding}
use hackaway_repo.Harness.Contract.{ConfigInput}
use hackaway_repo.Agent.Reconcile.{
  reconciled, ensure_configs, ensure_storage, ensure_workload, resolve_references, reconcile_agent,
}
use hackaway_repo.Agent.Reconcile.Reading.{resolve_references-state}

-- What was read, the agent and the claim that the storage handed on, and that every part succeeded.
pub record Ran (c : Client) (e : Encoding) (a : ClawAgent) (s : c.State) : Type 0 where
  pub skills : List SkillEntry
  pub input : ConfigInput
  pub b : ClawAgent
  pub active_pvc : String
  pub resolved : (resolve_references c e a s).0 ≡ ok (skills, input)
  pub configured : (ensure_configs c e a skills input s).0 ≡ ok tt
  pub stored :
      (ensure_storage c e a input.namespace input.name (ensure_configs c e a skills input s).1).0
      ≡ ok (some (b, active_pvc))
  pub finished :
      let t =
        (ensure_storage c e a input.namespace input.name
          (ensure_configs c e a skills input s).1).1 in
      ((ensure_workload c e a b active_pvc input t).0 ≡ ok tt)
      × ((reconcile_agent c e a s).1 ≡ (ensure_workload c e a b active_pvc input t).1)

pub reconcile_agent-Ran :
    (c : Client) (e : Encoding) (a : ClawAgent) (s : c.State)
    → (reconcile_agent c e a s).0 ≡ ok reconciled
    → Ran c e a s
unfolding reconcile_agent
reconcile_agent-Ran c e a s done =
    let read = resolve_references-state c e a s in
    elim (Result-cases (resolve_references c e a s).0) [
      | inl ((skills, input), p) ↦
          let two = ensure_configs c e a skills input s in
          let three = ensure_storage c e a input.namespace input.name two.1 in
          elim (Result-cases two.0) [
            | inl (_, q) ↦ elim (Result-cases three.0) [
              | inl (none, r) ↦ absurd (ground (arith, read))
              | inl (some (b, active_pvc), r) ↦ record {
                skills = skills;
                input = input;
                b = b;
                active_pvc = active_pvc;
                resolved = p;
                configured = q;
                stored = r;
                finished = (ground (arith, read), ground (arith, read));
              }
              | inr bad ↦ absurd (ground (arith, read))
            ]
            | inr bad ↦ absurd (ground (arith, read))
          ]
      | inr bad ↦ absurd (ground (arith, read))
    ]
