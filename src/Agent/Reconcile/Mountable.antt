-- ===== src/Agent/Reconcile/Mountable.antt =====
-- The volumes of the pod that a reconciliation asks for are there when it goes to its end.
use hackaway_repo.Base.{
  String, true, false, ◌≡◌, ◌≢◌, refl, sym, ap, ◌∙◌, subst, inl, inr, arith, List, [], ◌∷◌, some,
  none, Bool-cases, ◌==◌, append, not, ◌&&◌, eq_iff,
}
use hackaway_repo.Kube.Objects.{
  Volume, VolumeSource, claim, empty_dir, config_map, secret, ConfigMap, Pvc,
}
use hackaway_repo.V1.Agent.{ClawAgent, is_persistent, workspace_mode_persistent}
use hackaway_repo.V1.SkillSet.{SkillEntry}
use hackaway_repo.Client as K
use hackaway_repo.Client.{Key, key_of, ok, Result-cases, Client}
use hackaway_repo.Client.Laws.{Lawful}
use hackaway_repo.Harness.Json.{Encoding}
use hackaway_repo.Harness.Contract.{ConfigInput}
use hackaway_repo.Agent.Volume.{key, active_pvc_name, new_pvc_name}
use hackaway_repo.Agent.Resize.Frames.{SameAgent}
use hackaway_repo.Agent.Resize.Backed.{Backed}
use hackaway_repo.Agent.Storage.{ensure_pvc}
use hackaway_repo.Agent.Storage.Backed.{ensure_pvc-Backed}
use hackaway_repo.Agent.Deployment.{
  DeploymentParams, agent_volumes, harness_home_volume, agent_deployment,
}
use hackaway_repo.Agent.Config.{identity_config_map}
use hackaway_repo.Agent.Config.Keys.{harness-key}
use hackaway_repo.Harness.Registry.{for_type}
use hackaway_repo.Agent.Reconcile.Desired.{Configured}
use hackaway_repo.Agent.Reconcile.{
  reconciled, ensure_configs, ensure_storage, resolve_references, reconcile_agent,
}
use hackaway_repo.Agent.Reconcile.Frames.{ensure_workload-frame}
use hackaway_repo.Agent.Reconcile.Ran.{Ran, reconcile_agent-Ran}
use hackaway_repo.Agent.Reconcile.Workload.{params, wanted_deployment}
use hackaway_repo.Agent.Ensure.Laws.{Holds}
use hackaway_repo.Agent.Reconcile.Reading.{resolve_references-about}
use hackaway_repo.Agent.Reconcile.Provisioned.{claim_in_use, Ran-parts}

-- What a volume needs of the cluster: its claim, or its config map where that is not optional.
abbrev pub Mountable : (c : Client) → String → c.State → VolumeSource → Type 0
Mountable c ns s (claim name read_only) = (p : Pvc) × (c.get K.pvc (key name ns) s ≡ ok p)
Mountable c ns s (config_map name none) =
    (m : ConfigMap) × (c.get K.config_map (key name ns) s ≡ ok m)
Mountable c ns s (config_map name (some is_optional)) = Unit
Mountable c ns s empty_dir = Unit
Mountable c ns s (secret name mode is_optional) = Unit

abbrev pub AllMountable : (c : Client) → String → c.State → List Volume → Type 0
AllMountable c ns s [] = Unit
AllMountable c ns s (v ∷ vs) = Mountable c ns s v.source × AllMountable c ns s vs

module _ (c : Client) (e : Encoding) (law : Lawful c) where
  storage-Backed :
      (a b : ClawAgent) (ns name active_pvc : String) (s : c.State)
      → active_pvc_name a name ≢ new_pvc_name name
      → is_persistent a.spec.workspace ≡ true
      → (ensure_storage c e a ns name s).0 ≡ ok (some (b, active_pvc))
      → Backed c ns name b (ensure_storage c e a ns name s).1
  unfolding ensure_storage
  storage-Backed a b ns name active_pvc s fresh persistent done =
      elim (Result-cases (ensure_pvc c a ns name s).0) [
        | inl (b', p) ↦
            let same : b' ≡ b = ground arith in
            let (q, there) = ensure_pvc-Backed c law a ns name fresh s b' p in
            (q, ground (arith, there, same))
        | inr (inl (f, p)) ↦ elim (Bool-cases (K.is_requeue f)) [
          | inl again ↦ absurd (ground arith)
          | inr other ↦ absurd (ground arith)
        ]
        | inr (inr p) ↦ absurd (ground arith)
      ]

  module _ (s : c.State) (ns name active_pvc : String) where
    home-Mountable :
        (mode : String)
        → (mode ≡ workspace_mode_persistent → Mountable c ns s (claim active_pvc false))
        → Mountable c ns s (harness_home_volume active_pvc mode).source
    unfolding harness_home_volume
    home-Mountable mode backed =
        elim (Bool-cases (mode == workspace_mode_persistent && not (active_pvc == ""))) [
          | inl claimed ↦
              rw claimed (backed ((eq_iff mode workspace_mode_persistent).0 (ground arith)))
          | inr scratch ↦ rw scratch tt
        ]

  volumes-Mountable :
      (p : DeploymentParams) (s : c.State)
      → Mountable c p.namespace s
          (harness_home_volume p.active_pvc p.agent.spec.workspace.mode).source
      → Mountable c p.namespace s (config_map (append p.name p.harness.config_map_suffix) none)
      → Mountable c p.namespace s (config_map (append p.name "-identity") none)
      → AllMountable c p.namespace s (agent_volumes p)
  unfolding agent_volumes
  volumes-Mountable p s home config identity =
      elim (Bool-cases (p.agent.spec.credentials_secret == "")) [
        | inl bare ↦ rw bare (home, (config, (identity, (tt, tt))))
        | inr given ↦ rw given (home, (config, (identity, (tt, (tt, tt)))))
      ]

  configs-Mountable :
      (a b : ClawAgent) (skills : List SkillEntry) (input : ConfigInput) (s : c.State)
      → SameAgent a b
      → Configured c e a skills input s
      → Mountable c input.namespace s
          (config_map (append input.name (for_type e b.spec.harness.type).config_map_suffix) none)
        × Mountable c input.namespace s (config_map (append input.name "-identity") none)
  unfolding identity_config_map
  configs-Mountable a b skills input s alike (identity, _, (m, made, config)) =
      let suffix = λ (t : String). (for_type e t).config_map_suffix in
      let called : key_of K.config_map m
          ≡ key (append input.name (suffix b.spec.harness.type)) input.namespace =
        harness-key (for_type e a.spec.harness.type) input m made
        ∙ ap (λ spec. key (append input.name (suffix spec.harness.type)) input.namespace)
            (sym alike.1) in
      (
        (config.0, ap (λ y. c.get K.config_map y s) (sym called) ∙ config.1),
        (identity.0, identity.1),
      )

  module _ (a : ClawAgent) (s : c.State) (r : Ran c e a s) where
    -- The claim in use at the end.
    claim_backed :
        SameAgent a r.b
        → active_pvc_name a a.meta.name ≢ new_pvc_name a.meta.name
        → r.b.spec.workspace.mode ≡ workspace_mode_persistent
        → Mountable c r.input.namespace
            (reconcile_agent c e a s).1
            (claim (claim_in_use r.b r.input.name) false)
    unfolding is_persistent
    claim_backed alike fresh mode =
        let (_, _, named) = resolve_references-about c e a s r.skills r.input r.resolved in
        let two = (ensure_configs c e a r.skills r.input s).1 in
        let three = (ensure_storage c e a r.input.namespace r.input.name two).1 in
        let persistent : is_persistent r.b.spec.workspace ≡ true =
          (eq_iff r.b.spec.workspace.mode workspace_mode_persistent).1 mode in
        let persistent' : is_persistent a.spec.workspace ≡ true =
          ap (λ spec. is_persistent spec.workspace) (sym alike.1) ∙ persistent in
        let fresh' : active_pvc_name a r.input.name ≢ new_pvc_name r.input.name =
          subst (λ n. active_pvc_name a n ≢ new_pvc_name n) (sym named) fresh in
        let (q, there) =
          storage-Backed a r.b r.input.namespace r.input.name r.active_pvc two fresh' persistent'
            r.stored in
        let home = key (active_pvc_name r.b r.input.name) r.input.namespace in
        let in_use : claim_in_use r.b r.input.name ≡ active_pvc_name r.b r.input.name =
          rw persistent refl in
        (
          q,
          ap (λ n. c.get K.pvc (key n r.input.namespace) (reconcile_agent c e a s).1) in_use
              ∙ ap (λ u. c.get K.pvc home u) r.finished.1
              ∙ ensure_workload-frame c e law K.pvc home a r.b r.active_pvc r.input three (λ u. cc)
                  (λ u. cc) (λ u. cc)
              ∙ there,
        )

  -- With a lawful client, when the reconciliation of an agent that is stored as it was read goes to its
  -- end, and the claim that the agent used before was not made by an earlier growth, the cluster has
  -- the deployment that the source builds for the agent, its volumes included, up to the defaults that
  -- the API server fills in, and everything that these volumes need: the claim of a persistent
  -- workspace and every config map that is not optional.
  pub reconcile_agent-Mountable :
      (a : ClawAgent) (s : c.State)
      → c.get K.agent (key_of K.agent a) s ≡ ok a
      → active_pvc_name a a.meta.name ≢ new_pvc_name a.meta.name
      → (reconcile_agent c e a s).0 ≡ ok reconciled
      → let s' = (reconcile_agent c e a s).1 in
        (skills : List SkillEntry) × (input : ConfigInput) × (b : ClawAgent) × ((resolve_references
            c e a s).0
          ≡ ok (skills, input))
        × SameAgent a b
        × (let d = wanted_deployment e b (claim_in_use b input.name) input in
            Holds c K.deployment d s'
            × AllMountable c input.namespace s' d.spec.template_spec.volumes)
  unfolding agent_deployment
  reconcile_agent-Mountable a s there fresh done =
      let r = reconcile_agent-Ran c e a s done in
      let s' = (reconcile_agent c e a s).1 in
      let (alike, configured, serving, _) = Ran-parts c e law a s r there in
      let (config, identity) = configs-Mountable a r.b r.skills r.input s' alike configured in
      (
        r.skills,
        r.input,
        r.b,
        r.resolved,
        alike,
        (
          serving.0,
          volumes-Mountable (params e r.b (claim_in_use r.b r.input.name) r.input) s'
              (home-Mountable s' r.input.namespace r.input.name (claim_in_use r.b r.input.name)
                r.b.spec.workspace.mode (claim_backed a s r alike fresh))
              config identity,
        ),
      )
