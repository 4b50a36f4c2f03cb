-- ===== src/Agent/Watch/Laws.antt =====
-- Which agents a change of a resource reconciles.
use mathlib.Core.List.{Memᴰ}
use hackaway_repo.Base.{
  Bool, true, false, ◌≡◌, refl, ap, sym, ◌∙◌, List, [], ◌∷◌, ◌↔◌, inl, inr, arith, contains,
  if◌then◌else◌, Bool-cases, subst,
}
use hackaway_repo.Kube.Objects.{ObjectMeta}
use hackaway_repo.V1.Agent.{ClawAgent, ClawAgentSpec}
use hackaway_repo.Client.{agent, Key, key_of, ok, Client}
use hackaway_repo.Agent.Watch.{requests_of, find_agents_referencing_field, find_agents_for_channel}

-- An agent of the list whose spec matches has the key.
abbrev pub Referring : (ClawAgentSpec → Bool) → List ClawAgent → Key → Type 0
Referring match agents x =
    (a : ClawAgent) × Memᴰ a agents × (match a.spec ≡ true) × (key_of agent a ≡ x)

module _ (match : ClawAgentSpec → Bool) (x : Key) where
  pub requests_of_sound :
      (agents : List ClawAgent) → Memᴰ x (requests_of match agents) → Referring match agents x
  unfolding requests_of
  requests_of_sound [] h = elim h [ ]
  requests_of_sound (a ∷ agents) h = by_match (match a.spec) refl (requests_of_sound agents) h
    where
      by_match :
          (b : Bool)
          → match a.spec ≡ b
          → (Memᴰ x (requests_of match agents) → Referring match agents x)
          → Memᴰ x
              (if b then key_of agent a ∷ requests_of match agents else requests_of match agents)
          → Referring match (a ∷ agents) x
      by_match true e sound (Memᴰ.head same) = (a, Memᴰ.head refl, e, sym same)
      by_match true e sound (Memᴰ.tail m) =
          let (b, among, matches, key) = sound m in (b, Memᴰ.tail among, matches, key)
      by_match false e sound m =
          let (b, among, matches, key) = sound m in (b, Memᴰ.tail among, matches, key)

  pub requests_of_complete :
      (agents : List ClawAgent) (a : ClawAgent)
      → Memᴰ a agents
      → match a.spec ≡ true
      → key_of agent a ≡ x
      → Memᴰ x (requests_of match agents)
  unfolding requests_of
  requests_of_complete [] a m e key = elim m [ ]
  requests_of_complete (b ∷ agents) a (Memᴰ.head same) e key =
      rw (subst (λ c. match c.spec ≡ true) same e)
        (Memᴰ.head (sym key ∙ ap (λ c. key_of agent c) same))
  requests_of_complete (b ∷ agents) a (Memᴰ.tail m) e key =
      let rest = requests_of_complete agents a m e key in
      elim (Bool-cases (match b.spec)) [
        | inl yes_b ↦ rw yes_b (Memᴰ.tail rest)
        | inr no_b ↦ rw no_b rest
      ]

-- When a channel changes and the list of its namespace can be read, the agents that are reconciled
-- are exactly those of the list that name the channel.
pub find_agents_for_channel-Referring :
    (c : Client) (obj : ObjectMeta) (s : c.State) (agents : List ClawAgent) (x : Key)
    → c.list agent obj.namespace s ≡ ok agents
    → (keys : List Key) × (find_agents_for_channel c obj s ≡ ok keys)
      × (Memᴰ x keys ↔ Referring (λ spec. contains obj.name spec.channels) agents x)
unfolding find_agents_for_channel find_agents_referencing_field
find_agents_for_channel-Referring c obj s agents x listed =
    let match : ClawAgentSpec → Bool = λ spec. contains obj.name spec.channels in
    (
      requests_of match agents,
      ground arith,
      (
        requests_of_sound match x agents,
        λ r.
            let (a, among, matches, key) = r in
            requests_of_complete match x agents a among matches key,
      ),
    )
