-- ===== src/Agent/Config/Keys.antt =====
-- The three config maps of an agent are three objects: their names differ in the suffix.
use hackaway_repo.Base.{
  String, false, ◌≡◌, ◌≢◌, refl, sym, ap, ◌∙◌, inl, inr, arith, List, some, Option, Option-cases,
  Bool-cases, append, ◌==◌, eq_iff,
}
use hackaway_repo.Kube.Objects.{ConfigMap}
use hackaway_repo.V1.Agent.{ClawAgent}
use hackaway_repo.V1.SkillSet.{SkillEntry}
use hackaway_repo.Client.{config_map, Key, key_of, ok}
use hackaway_repo.Harness.Json.{Encoding}
use hackaway_repo.Harness.Contract.{Harness, ConfigInput}
use hackaway_repo.Harness.OpenClaw.{openclaw, observeclaw}
use hackaway_repo.Harness.Hermes.{hermes}
use hackaway_repo.Harness.Registry.{for_type}
use hackaway_repo.Api.Paths.{strip_prefix, strip_prefix-append}
use hackaway_repo.Agent.Config.{identity_config_map, skills_config_map, harness_config_map}

some-cancel : {A : Type 0} (a b : A) → Path (Option A) (some a) (some b) → a ≡ b
some-cancel a b p = cc

append-cancel : (p s t : String) → append p s ≡ append p t → s ≡ t
append-cancel p s t same =
    some-cancel s t
      (sym (strip_prefix-append p s) ∙ ap (strip_prefix p) same ∙ strip_prefix-append p t)

-- Texts that differ, behind one name.
suffixes_apart : (name s t : String) → (s == t) ≡ false → append name s ≢ append name t
suffixes_apart name s t differ same = cc ((eq_iff s t).1 (append-cancel name s t same))

-- The suffix of no harness is one of the other two.
suffix_free :
    (e : Encoding) (type : String)
    → (("-identity" == (for_type e type).config_map_suffix) ≡ false)
      × (("-skills" == (for_type e type).config_map_suffix) ≡ false)
unfolding for_type openclaw observeclaw hermes
suffix_free e type = elim (Bool-cases (type == "observeclaw")) [
  | inl observe ↦ rw observe (refl, refl)
  | inr other ↦ elim (Bool-cases (type == "hermes")) [
    | inl yes_hermes ↦ rw (other, yes_hermes) (refl, refl)
    | inr neither ↦ rw (other, neither) (refl, refl)
  ]
]

-- The key of an object of the agent, by its suffix.
abbrev pub suffixed : String → String → String → Key
suffixed ns name suffix = record { name = append name suffix; namespace = ns }

suffixed_apart : (ns name s t : String) → (s == t) ≡ false → suffixed ns name s ≢ suffixed ns name t
suffixed_apart ns name s t differ same = suffixes_apart name s t differ (ap (λ k. k.name) same)

pub harness-key :
    (h : Harness) (input : ConfigInput) (m : ConfigMap)
    → harness_config_map h input ≡ ok m
    → key_of config_map m ≡ suffixed input.namespace input.name h.config_map_suffix
unfolding harness_config_map
harness-key h input m made = elim (Option-cases (h.build_config input)) [
  | inl missing ↦ absurd (ground arith)
  | inr (text, built) ↦ ground arith
]

module _ (input : ConfigInput) (a : ClawAgent) (skills : List SkillEntry) where
  pub skills-identity_apart :
      key_of config_map (skills_config_map input.namespace input.name skills)
      ≢ key_of config_map (identity_config_map a input.namespace input.name)
  unfolding skills_config_map identity_config_map
  skills-identity_apart = suffixed_apart input.namespace input.name "-skills" "-identity" refl

  module _ (e : Encoding) (type : String) (m : ConfigMap)
      (made : harness_config_map (for_type e type) input ≡ ok m) where
    pub identity-harness_apart :
        key_of config_map m ≢ key_of config_map (identity_config_map a input.namespace input.name)
    unfolding identity_config_map
    identity-harness_apart same =
        suffixed_apart input.namespace input.name "-identity" (for_type e type).config_map_suffix
          (suffix_free e type).0 (sym same ∙ harness-key (for_type e type) input m made)

    pub skills-harness_apart :
        key_of config_map m
        ≢ key_of config_map (skills_config_map input.namespace input.name skills)
    unfolding skills_config_map
    skills-harness_apart same =
        suffixed_apart input.namespace input.name "-skills" (for_type e type).config_map_suffix
          (suffix_free e type).1 (sym same ∙ harness-key (for_type e type) input m made)
