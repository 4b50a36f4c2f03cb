-- ===== src/Agent/Reconcile/Provisioned.antt =====
-- What a whole reconciliation that goes to its end leaves in the cluster.
use hackaway_repo.Base.{
  String, true, ◌≡◌, ◌≢◌, refl, sym, ap, ◌∙◌, subst, inl, inr, arith, List, some, none, Option,
  Bool-cases, if◌then◌else◌,
}
use hackaway_repo.Kube.Objects.{ConfigMap}
use hackaway_repo.V1.Agent.{ClawAgent, is_persistent}
use hackaway_repo.V1.SkillSet.{SkillEntry}
use hackaway_repo.Client.{
  Kind, config_map, deployment, pvc, pod, agent, Key, key_of, ok, is_requeue, Result-cases, Client,
}
use hackaway_repo.Client.Laws.{Lawful}
use hackaway_repo.Client.Frame.{Tame}
use hackaway_repo.Harness.Json.{Encoding}
use hackaway_repo.Harness.Contract.{ConfigInput}
use hackaway_repo.Agent.Config.{identity_config_map, skills_config_map}
use hackaway_repo.Agent.Volume.{active_pvc_name}
use hackaway_repo.Agent.Resize.Frames.{SameAgent}
use hackaway_repo.Agent.Storage.{ensure_pvc, cleanup_orphaned_pvc}
use hackaway_repo.Agent.Storage.Frames.{ensure_pvc-Leaves, cleanup_orphaned_pvc-Leaves}
use hackaway_repo.Agent.Ensure.Laws.{Holds-carried}
use hackaway_repo.Agent.Reconcile.{
  reconciled, ensure_configs, ensure_storage, ensure_workload, resolve_references, reconcile_agent,
}
use hackaway_repo.Agent.Reconcile.Frames.{ensure_configs-frame, ensure_workload-frame}
use hackaway_repo.Agent.Reconcile.Ran.{Ran, reconcile_agent-Ran}
use hackaway_repo.Agent.Reconcile.Desired.{Configured, ensure_configs-Configured}
use hackaway_repo.Agent.Reconcile.Workload.{Serving, Stored, Reported, ensure_workload-done}

-- The claim in use: the one that the agent's status or name gives, or none.
abbrev pub claim_in_use : ClawAgent → String → String
claim_in_use b name = if is_persistent b.spec.workspace then active_pvc_name b name else ""

-- From the cluster `s` to the cluster `s'`: what was read of the resources that the agent names, the
-- agent `b` with the status that its storage gave it, and the objects that are there at the end.
abbrev pub Provisioned : (c : Client) → Encoding → ClawAgent → c.State → c.State → Type 0
Provisioned c e a s s' =
    (skills : List SkillEntry) × (input : ConfigInput) × (b : ClawAgent) × ((resolve_references c e
        a s).0
      ≡ ok (skills, input))
    × SameAgent a b
    × Configured c e a skills input s'
    × Serving c e b (claim_in_use b input.name) input s'
    × Reported c b (claim_in_use b input.name) input s'

module _ (c : Client) (e : Encoding) (law : Lawful c) where
  -- What the storage hands on: nothing, or the agent but for its status, and its claim.
  abbrev pub Handed : ClawAgent → String → Option (ClawAgent × String) → Type 0
  Handed a name none = Unit
  Handed a name (some (b, active_pvc)) = SameAgent a b × (active_pvc ≡ claim_in_use b name)

  module _ (j : Kind) (x : Key) (pvcs : pvc ≢ j) (pods : pod ≢ j)
      (deployments : deployment ≢ j) where
    pub ensure_storage-Leaves :
        (a : ClawAgent) (ns name : String)
        → Tame c j x (Handed a name) (ensure_storage c e a ns name)
    unfolding ensure_storage
    ensure_storage-Leaves a ns name s = elim (Bool-cases (is_persistent a.spec.workspace)) [
      | inl persistent ↦
          let (same, holds) = ensure_pvc-Leaves c law j x pvcs pods deployments a ns name s in
          elim (Result-cases (ensure_pvc c a ns name s).0) [
            | inl (b, p) ↦
                let alike = holds b p in
                let still : is_persistent b.spec.workspace ≡ true =
                  ap (λ t. is_persistent t.workspace) alike.1 ∙ persistent in
                (
                  ground (arith, same),
                  λ r done.
                      subst (Handed a name) {x = some (b, active_pvc_name b name)} (ground arith)
                        (alike, rw still refl),
                )
            | inr (inl (f, p)) ↦ (
              ground (arith, same),
              λ r done. elim (Bool-cases (is_requeue f)) [
                | inl again ↦ subst (Handed a name) {x = none} (ground arith) tt
                | inr other ↦ absurd (ground arith)
              ],
            )
            | inr (inr p) ↦ (ground (arith, same), λ r done. absurd (ground arith))
          ]
      | inr ephemeral ↦
          let same = cleanup_orphaned_pvc-Leaves c law j x pvcs ns name s in
          elim (Result-cases (cleanup_orphaned_pvc c ns name s).0) [
            | inl (_, p) ↦ (
              ground (arith, same),
              λ r done.
                  subst (Handed a name) {x = some (a, "")} (ground arith)
                    ((refl, refl), rw ephemeral refl),
            )
            | inr (inl (f, p)) ↦ (ground (arith, same), λ r done. absurd (ground arith))
            | inr (inr p) ↦ (ground (arith, same), λ r done. absurd (ground arith))
          ]
    ]

  -- The steps after the config maps: they leave them alone, and what they leave in the cluster.
  module _ (a : ClawAgent) (skills : List SkillEntry) (input : ConfigInput) (s : c.State)
      (b : ClawAgent) (active_pvc : String) where
    workload_placed :
        let t = (ensure_storage c e a input.namespace input.name s).1 in
        let fin = (ensure_workload c e a b active_pvc input t).1 in
        c.get agent (key_of agent a) s ≡ ok a
        → Configured c e a skills input s
        → (ensure_storage c e a input.namespace input.name s).0 ≡ ok (some (b, active_pvc))
        → (ensure_workload c e a b active_pvc input t).0 ≡ ok tt
        → SameAgent a b
          × Configured c e a skills input fin
          × Serving c e b (claim_in_use b input.name) input fin
          × Reported c b (claim_in_use b input.name) input fin
    workload_placed there (identity, content, (m, made, config)) stored done =
        let t = (ensure_storage c e a input.namespace input.name s).1 in
        let fin = (ensure_workload c e a b active_pvc input t).1 in
        let quiet =
          ensure_storage-Leaves agent (key_of agent a) (λ q. cc) (λ q. cc) (λ q. cc) a
            input.namespace input.name s in
        let (alike, in_use) = quiet.1 (some (b, active_pvc)) stored in
        let same_key : key_of agent b ≡ key_of agent a = cc in
        let known : Stored c b a.status t =
          (a, ap (λ y. c.get agent y t) same_key ∙ quiet.0 ∙ there, refl) in
        let (serving, reported) = ensure_workload-done c e law a b active_pvc input t known done in
        let carried = λ (o : ConfigMap). Holds-carried c config_map o s fin (
          ensure_workload-frame c e law config_map (key_of config_map o) a b active_pvc input t
            (λ q. cc) (λ q. cc) (λ q. cc)
          ∙ (ensure_storage-Leaves config_map (key_of config_map o) (λ q. cc) (λ q. cc) (λ q. cc) a
              input.namespace input.name s).0) in
        (
          alike,
          (
            carried (identity_config_map a input.namespace input.name) identity,
            carried (skills_config_map input.namespace input.name skills) content,
            (m, made, carried m config),
          ),
          subst (λ v. Serving c e b v input fin) in_use serving,
          subst (λ v. Reported c b v input fin) in_use reported,
        )

  -- The parts of a reconciliation that went to its end.
  pub Ran-parts :
      (a : ClawAgent) (s : c.State) (r : Ran c e a s)
      → c.get agent (key_of agent a) s ≡ ok a
      → let s' = (reconcile_agent c e a s).1 in
        SameAgent a r.b
        × Configured c e a r.skills r.input s'
        × Serving c e r.b (claim_in_use r.b r.input.name) r.input s'
        × Reported c r.b (claim_in_use r.b r.input.name) r.input s'
  Ran-parts a s r there =
      let two = ensure_configs c e a r.skills r.input s in
      let unread : c.get agent (key_of agent a) two.1 ≡ ok a =
        ensure_configs-frame c e law agent (key_of agent a) a r.skills r.input s (λ t. cc)
        ∙ there in
      let (alike, configured, serving, reported) =
        workload_placed a r.skills r.input two.1 r.b r.active_pvc unread
          (ensure_configs-Configured c e law a r.skills r.input s r.configured) r.stored
          r.finished.0 in
      (
        alike,
        subst (Configured c e a r.skills r.input) (sym r.finished.1) configured,
        subst (Serving c e r.b (claim_in_use r.b r.input.name) r.input) (sym r.finished.1) serving,
        subst (Reported c r.b (claim_in_use r.b r.input.name) r.input) (sym r.finished.1) reported,
      )

  -- With a lawful client, when the reconciliation of an agent that is stored as it was read goes to its
  -- end, there are at the end: the three config maps, with the content that the source builds from the
  -- agent and from what it read of the resources that the agent names; a deployment with the replicas,
  -- the selector, the labels of the pods and the container's name and image that it builds, and a
  -- service with its ports and selector, for the agent with the status that its storage gave it and
  -- the claim in use; and the stored agent's status has that claim, and the phase and the pod's name
  -- that the deployment gives at the end.
  pub reconcile_agent-Provisioned :
      (a : ClawAgent) (s : c.State)
      → c.get agent (key_of agent a) s ≡ ok a
      → (reconcile_agent c e a s).0 ≡ ok reconciled
      → Provisioned c e a s (reconcile_agent c e a s).1
  reconcile_agent-Provisioned a s there done =
      let r = reconcile_agent-Ran c e a s done in
      let (alike, configured, serving, reported) = Ran-parts a s r there in
      (r.skills, r.input, r.b, r.resolved, alike, configured, serving, reported)
