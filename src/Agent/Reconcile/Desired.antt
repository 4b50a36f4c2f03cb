-- ===== src/Agent/Reconcile/Desired.antt =====
-- What a reconciliation that goes to its end leaves in the cluster: the objects that the source
-- builds from the agent and from the resources that it names.
use hackaway_repo.Base.{String, ◌≡◌, ◌≢◌, refl, sym, ap, ◌∙◌, subst, inr, List, false, ◌==◌}
use hackaway_repo.Kube.Objects.{ConfigMap}
use hackaway_repo.V1.Agent.{ClawAgent}
use hackaway_repo.V1.SkillSet.{SkillEntry}
use hackaway_repo.Client.{config_map, Key, key_of, ok, Client, lift, ◌>>◌, ◌>>=◌}
use hackaway_repo.Client.Laws.{Lawful}
use hackaway_repo.Client.Steps.{bind_ok, then_ok}
use hackaway_repo.Harness.Json.{Encoding}
use hackaway_repo.Harness.Contract.{ConfigInput}
use hackaway_repo.Harness.Registry.{for_type}
use hackaway_repo.Agent.Config.{identity_config_map, skills_config_map, harness_config_map}
use hackaway_repo.Agent.Config.Keys.{
  skills-identity_apart, identity-harness_apart, skills-harness_apart, suffixed, harness-key,
}
use hackaway_repo.Agent.Config.Away.{ending, not_ending, harness_away}
use hackaway_repo.Agent.Volume.{key}
use hackaway_repo.Agent.Ensure.{ensure_config_map}
use hackaway_repo.Agent.Ensure.Frames.{ensure_config_map-frame}
use hackaway_repo.Agent.Ensure.Laws.{Holds, Holds-carried, ensure_config_map-Holds}
use hackaway_repo.Agent.Reconcile.{ensure_configs}

-- The three config maps.
abbrev pub Configured :
    (c : Client) → Encoding → ClawAgent → List SkillEntry → ConfigInput → c.State → Type 0
Configured c e a skills input s =
    Holds c config_map (identity_config_map a input.namespace input.name) s
    × Holds c config_map (skills_config_map input.namespace input.name skills) s
    × ((m : ConfigMap) × (harness_config_map (for_type e a.spec.harness.type) input ≡ ok m)
        × Holds c config_map m s)

module _ (c : Client) (e : Encoding) (law : Lawful c) where
  pub ensure_configs-Configured :
      (a : ClawAgent) (skills : List SkillEntry) (input : ConfigInput) (s : c.State)
      → (ensure_configs c e a skills input s).0 ≡ ok tt
      → Configured c e a skills input (ensure_configs c e a skills input s).1
  unfolding ensure_configs
  ensure_configs-Configured a skills input s done =
      let identity = identity_config_map a input.namespace input.name in
      let content = skills_config_map input.namespace input.name skills in
      let h = for_type e a.spec.harness.type in
      let first = ensure_config_map c a.meta identity "identity-configmap" in
      let second = ensure_config_map c a.meta content "skills-configmap" in
      let third = λ (m : ConfigMap). ensure_config_map c a.meta m "harness-config-configmap" in
      let last = lift (harness_config_map h input) >>= third in
      let (p, rest, end) = then_ok first (second >> last) s tt done in
      let one = (first s).1 in
      let (q, rest', end') = then_ok second last one tt rest in
      let two = (second one).1 in
      let (m, made, r, end'') = bind_ok (lift (harness_config_map h input)) third two tt rest' in
      let fin = (third m two).1 in
      let there : (ensure_configs c e a skills input s).1 ≡ fin = end ∙ end' ∙ end'' in
      let after_two = λ (o : ConfigMap) (apart : key_of config_map m ≢ key_of config_map o).
        ensure_config_map-frame c law config_map (key_of config_map o) a.meta
          "harness-config-configmap" two m (inr apart) in
      let after_one =
        ensure_config_map-frame c law config_map (key_of config_map identity) a.meta
          "skills-configmap" one content (inr (skills-identity_apart input a skills)) in
      let type = a.spec.harness.type in
      subst (Configured c e a skills input) (sym there) (
        Holds-carried c config_map identity one fin
            (after_two identity (identity-harness_apart input a skills e type m made) ∙ after_one)
            (ensure_config_map-Holds c law a.meta "identity-configmap" s identity p),
        Holds-carried c config_map content two fin
            (after_two content (skills-harness_apart input a skills e type m made))
            (ensure_config_map-Holds c law a.meta "skills-configmap" one content q),
        (m, made, ensure_config_map-Holds c law a.meta "harness-config-configmap" two m r),
      )

  -- The config maps stay as they are where nothing but the one of the dashboard changes.
  pub Configured-carried :
      (a : ClawAgent) (skills : List SkillEntry) (input : ConfigInput) (ns : String) (s t : c.State)
      → ((y : Key) → key "fleet-dashboard" ns ≢ y → c.get config_map y t ≡ c.get config_map y s)
      → Configured c e a skills input s
      → Configured c e a skills input t
  unfolding identity_config_map skills_config_map
  Configured-carried a skills input ns s t frame (identity, content, (m, made, config)) =
      let h = for_type e a.spec.harness.type in
      let away =
        λ (suffix : String) (y : Key) (called : y ≡ suffixed input.namespace input.name suffix)
            (other : (ending "fleet-dashboard" suffix == suffix) ≡ false).
          frame y (λ same.
            not_ending "fleet-dashboard" input.name suffix other
              (ap (λ z. z.name) (sym (same ∙ called)))) in
      (
        Holds-carried c config_map (identity_config_map a input.namespace input.name) s t
            (away "-identity" _ refl refl) identity,
        Holds-carried c config_map (skills_config_map input.namespace input.name skills) s t
            (away "-skills" _ refl refl) content,
        (
          m,
          made,
          Holds-carried c config_map m s t
              (away h.config_map_suffix _ (harness-key h input m made)
                (harness_away e a.spec.harness.type))
              config,
        ),
      )
