-- ===== src/Agent/Reconcile/Reading.antt =====
-- What a reconciliation reads of the resources that its agent names.
use hackaway_repo.Base.{String, ◌≡◌, refl, inl, inr, arith, List, [], ◌∷◌}
use hackaway_repo.V1.Agent.{ClawAgent}
use hackaway_repo.V1.SkillSet.{SkillEntry}
use hackaway_repo.Harness.Contract.{ConfigInput}
use hackaway_repo.Client.{
  Kind, observability, skill_set, gateway, policy, channel, Result-cases, Client, ok,
}
use hackaway_repo.Harness.Json.{Encoding}
use hackaway_repo.Agent.Volume.{key}
use hackaway_repo.Agent.References.{resolve, resolve_endpoint, resolve_skills, resolve_channels}
use hackaway_repo.Agent.Reconcile.{resolve_references}

module _ (c : Client) where
  pub resolve-state : (k : Kind) (name ns : String) (s : c.State) → (resolve c k name ns s).1 ≡ s
  unfolding resolve
  resolve-state k name ns s = elim (Result-cases (c.get k (key name ns) s)) [
    | inl (o, found) ↦ ground arith
    | inr (inl (e, failed)) ↦ ground arith
    | inr (inr stopped) ↦ ground arith
  ]

  pub resolve_endpoint-state :
      (name ns : String) (s : c.State) → (resolve_endpoint c name ns s).1 ≡ s
  unfolding resolve_endpoint
  resolve_endpoint-state name ns s = elim (Result-cases (resolve c observability name ns s).0) [
    | inl (o, found) ↦ ground (arith, resolve-state observability name ns s)
    | inr (inl (e, failed)) ↦ ground (arith, resolve-state observability name ns s)
    | inr (inr stopped) ↦ ground (arith, resolve-state observability name ns s)
  ]

  pub resolve_skills-state : (name ns : String) (s : c.State) → (resolve_skills c name ns s).1 ≡ s
  unfolding resolve_skills
  resolve_skills-state name ns s = elim (Result-cases (resolve c skill_set name ns s).0) [
    | inl (o, found) ↦ ground (arith, resolve-state skill_set name ns s)
    | inr (inl (e, failed)) ↦ ground (arith, resolve-state skill_set name ns s)
    | inr (inr stopped) ↦ ground (arith, resolve-state skill_set name ns s)
  ]

  pub resolve_channels-state :
      (names : List String) (ns : String) (s : c.State) → (resolve_channels c names ns s).1 ≡ s
  unfolding resolve_channels
  resolve_channels-state [] ns s = refl
  resolve_channels-state (name ∷ names) ns s =
      let rest = resolve_channels-state names ns s in
      elim (Result-cases (c.get channel (key name ns) s)) [
        | inl (ch, found) ↦ elim (Result-cases (resolve_channels c names ns s).0) [
          | inl (chs, done) ↦ ground (arith, rest)
          | inr (inl (e, failed)) ↦ ground (arith, rest)
          | inr (inr stopped) ↦ ground (arith, rest)
        ]
        | inr (inl (e, failed)) ↦ ground (arith, rest)
        | inr (inr stopped) ↦ ground (arith, rest)
      ]

  -- Reading the resources that an agent names writes nothing, whether or not it succeeds.
  pub resolve_references-state :
      (e : Encoding) (a : ClawAgent) (s : c.State) → (resolve_references c e a s).1 ≡ s
  unfolding resolve_references
  resolve_references-state e a s =
      let ns = a.meta.namespace in
      let first = resolve_endpoint-state a.spec.observability ns s in
      let second = resolve_skills-state a.spec.skill_set ns s in
      let third = resolve-state gateway a.spec.gateway ns s in
      let fourth = resolve-state policy a.spec.policy ns s in
      let fifth = resolve_channels-state a.spec.channels ns s in
      elim (Result-cases (resolve_endpoint c a.spec.observability ns s).0) [
        | inl (_, p) ↦ elim (Result-cases (resolve_skills c a.spec.skill_set ns s).0) [
          | inl (_, q) ↦ elim (Result-cases (resolve c gateway a.spec.gateway ns s).0) [
            | inl (_, r) ↦ elim (Result-cases (resolve c policy a.spec.policy ns s).0) [
              | inl (_, t) ↦ elim (Result-cases (resolve_channels c a.spec.channels ns s).0) [
                | inl (_, u) ↦ ground (arith, first, second, third, fourth, fifth)
                | inr (inl (_, u)) ↦ ground (arith, first, second, third, fourth, fifth)
                | inr (inr u) ↦ ground (arith, first, second, third, fourth, fifth)
              ]
              | inr (inl (_, t)) ↦ ground (arith, first, second, third, fourth)
              | inr (inr t) ↦ ground (arith, first, second, third, fourth)
            ]
            | inr (inl (_, r)) ↦ ground (arith, first, second, third)
            | inr (inr r) ↦ ground (arith, first, second, third)
          ]
          | inr (inl (_, q)) ↦ ground (arith, first, second)
          | inr (inr q) ↦ ground (arith, first, second)
        ]
        | inr (inl (_, p)) ↦ ground (arith, first)
        | inr (inr p) ↦ ground (arith, first)
      ]

  -- The input of the harness is about the agent that was read.
  pub resolve_references-about :
      (e : Encoding) (a : ClawAgent) (s : c.State) (skills : List SkillEntry) (input : ConfigInput)
      → (resolve_references c e a s).0 ≡ ok (skills, input)
      → (input.agent ≡ a) × (input.namespace ≡ a.meta.namespace) × (input.name ≡ a.meta.name)
  unfolding resolve_references
  resolve_references-about e a s skills input done =
      let ns = a.meta.namespace in
      let (o, s1) = resolve_endpoint c a.spec.observability ns s in
      let (k, s2) = resolve_skills c a.spec.skill_set ns s1 in
      let (g, s3) = resolve c gateway a.spec.gateway ns s2 in
      let (p, s4) = resolve c policy a.spec.policy ns s3 in
      let (chs, s5) = resolve_channels c a.spec.channels ns s4 in
      elim (Result-cases o) [
        | inl (_, first) ↦ elim (Result-cases k) [
          | inl (_, second) ↦ elim (Result-cases g) [
            | inl (_, third) ↦ elim (Result-cases p) [
              | inl (_, fourth) ↦ elim (Result-cases chs) [
                | inl (_, fifth) ↦ ground arith
                | inr other ↦ absurd (ground arith)
              ]
              | inr other ↦ absurd (ground arith)
            ]
            | inr other ↦ absurd (ground arith)
          ]
          | inr other ↦ absurd (ground arith)
        ]
        | inr other ↦ absurd (ground arith)
      ]
