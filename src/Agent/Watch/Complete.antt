-- ===== src/Agent/Watch/Complete.antt =====
-- The watches miss nothing: an agent that a change of a resource does not bring to the queue reads
-- what it read before.
use mathlib.Core.List.{Memᴰ}
use hackaway_repo.Base.{
  String, true, ◌≡◌, refl, ap, sym, ◌∙◌, List, [], ◌∷◌, inl, inr, arith, contains, contains_self,
  eq_iff, ◌==◌, subst, String-discrete, none, some,
}
use hackaway_repo.Kube.Objects.{ObjectMeta}
use hackaway_repo.V1.Agent.{ClawAgent}
use hackaway_repo.Client.{
  Kind, agent, channel, gateway, policy, skill_set, observability, Key, key_of, ok, ok-cancel,
  Result-cases, Client, pure,
}
use hackaway_repo.Client.Laws.{Elsewhere}
use hackaway_repo.Client.Steps.{bind_same, reads_agree}
use hackaway_repo.Harness.Json.{Encoding}
use hackaway_repo.Agent.Volume.{key}
use hackaway_repo.Agent.References.{resolve, resolve_endpoint, resolve_skills, resolve_channels}
use hackaway_repo.Agent.Reconcile.{resolve_references}
use hackaway_repo.Agent.Reconcile.Reading.{
  resolve-state, resolve_endpoint-state, resolve_skills-state, resolve_channels-state,
}
use hackaway_repo.Agent.Watch.{requests_of, setup_with_manager}
use hackaway_repo.Agent.Watch.Laws.{requests_of_complete}
use hackaway_repo.Agent.Watch.Exact.{requests, names, requests-names}

itself : (n : String) → (n == n) ≡ true
itself n = (eq_iff n n).1 refl

Kind-discrete : Discrete Kind
Kind-discrete = hlevel

module _ (c : Client) (s t : c.State) (ns : String) where
  Same : Kind → String → Type 0
  Same k n = c.get k (key n ns) s ≡ c.get k (key n ns) t

  resolve-Same :
      (k : Kind) (n : String) → Same k n → (resolve c k n ns s).0 ≡ (resolve c k n ns t).0
  unfolding Same resolve
  resolve-Same k n same = ground (arith, same)

  resolve_endpoint-Same :
      (n : String)
      → Same observability n
      → (resolve_endpoint c n ns s).0 ≡ (resolve_endpoint c n ns t).0
  unfolding resolve_endpoint
  resolve_endpoint-Same n same =
      bind_same (resolve c observability n ns)
        (λ found. pure (elim found [ none ↦ "" | some o ↦ o.spec.otlp_endpoint ])) s t
        (resolve-Same observability n same) (resolve-state c observability n ns s)
        (resolve-state c observability n ns t) (λ o. refl)

  resolve_skills-Same :
      (n : String) → Same skill_set n → (resolve_skills c n ns s).0 ≡ (resolve_skills c n ns t).0
  unfolding resolve_skills
  resolve_skills-Same n same =
      bind_same (resolve c skill_set n ns)
        (λ found. pure (elim found [ none ↦ [] | some o ↦ o.spec.skills ])) s t
        (resolve-Same skill_set n same) (resolve-state c skill_set n ns s)
        (resolve-state c skill_set n ns t) (λ o. refl)

  resolve_channels-Same :
      (all : List String)
      → ((n : String) → contains n all ≡ true → Same channel n)
      → (resolve_channels c all ns s).0 ≡ (resolve_channels c all ns t).0
  unfolding resolve_channels Same contains
  resolve_channels-Same [] same = refl
  resolve_channels-Same (n ∷ all) same =
      let rest = resolve_channels-Same all (λ m h. same m (ground (arith, h))) in
      let here = same n (contains_self n all) in
      elim (Result-cases (c.get channel (key n ns) t)) [
        | inl (ch, found) ↦ ground (arith, rest, here)
        | inr (inl (e, failed)) ↦ ground (arith, rest, here)
        | inr (inr stopped) ↦ ground (arith, rest, here)
      ]

module _ (c : Client) (e : Encoding) (a : ClawAgent) (k : Kind) (obj : ObjectMeta) (s t : c.State)
    (agents : List ClawAgent) (keys : List Key) where
  -- A resource that the agent names is the same, if the agent is not in the queue.
  untouched :
      c.list agent obj.namespace t ≡ ok agents
      → Memᴰ a agents
      → ((j : Kind) (x : Key)
          → Elsewhere k (key obj.name obj.namespace) j x
          → c.get j x s ≡ c.get j x t)
      → requests (setup_with_manager c k) obj t ≡ ok keys
      → ¬ Memᴰ (key_of agent a) keys
      → (j : Kind) (n : String) → names j n a.spec ≡ true
      → Same c s t a.meta.namespace j n
  unfolding Same
  untouched listed among frame asked absent j n named = elim (Kind-discrete k j) [
    | no other ↦ frame j (key n a.meta.namespace) (inl other)
    | yes same ↦ elim (String-discrete obj.name n) [
      | no differ ↦ frame j (key n a.meta.namespace) (inr (λ p. differ (ap (λ y. y.name) p)))
      | yes called ↦
          let named' : names k obj.name a.spec ≡ true =
            subst (λ q. names q obj.name a.spec ≡ true) (sym same)
              (subst (λ m. names j m a.spec ≡ true) (sym called) named) in
          let all : keys ≡ requests_of (names k obj.name) agents =
            ok-cancel _ _ (sym asked ∙ requests-names c obj t agents listed k) in
          absurd (
            absent (
              subst (Memᴰ (key_of agent a)) (sym all) (
                requests_of_complete (names k obj.name) (key_of agent a) agents a among named'
                  refl)))
    ]
  ]

  -- Let the clusters `s` and `t` differ, if at all, in one object, of whatever kind; let the agent be
  -- in the list of that object's namespace, which can be read, and not among the agents that the
  -- watches bring to the queue for the object. Then what the agent's reconciliation would read of the
  -- resources that it names is the same in both, an error included.
  pub resolve_references-unqueued :
      c.list agent obj.namespace t ≡ ok agents
      → Memᴰ a agents
      → ((j : Kind) (x : Key)
          → Elsewhere k (key obj.name obj.namespace) j x
          → c.get j x s ≡ c.get j x t)
      → requests (setup_with_manager c k) obj t ≡ ok keys
      → ¬ Memᴰ (key_of agent a) keys
      → (resolve_references c e a s).0 ≡ (resolve_references c e a t).0
  unfolding resolve_references
  resolve_references-unqueued listed among frame asked absent =
      let ns = a.meta.namespace in
      let same = untouched listed among frame asked absent in
      reads_agree s t (resolve_endpoint c a.spec.observability ns)
        (resolve_skills c a.spec.skill_set ns) (resolve c gateway a.spec.gateway ns)
        (resolve c policy a.spec.policy ns) (resolve_channels c a.spec.channels ns) _
        (
          resolve_endpoint-Same c s t ns a.spec.observability
              (same observability a.spec.observability (itself a.spec.observability)),
          resolve_endpoint-state c a.spec.observability ns s,
          resolve_endpoint-state c a.spec.observability ns t,
        )
        (
          resolve_skills-Same c s t ns a.spec.skill_set
              (same skill_set a.spec.skill_set (itself a.spec.skill_set)),
          resolve_skills-state c a.spec.skill_set ns s,
          resolve_skills-state c a.spec.skill_set ns t,
        )
        (
          resolve-Same c s t ns gateway a.spec.gateway
              (same gateway a.spec.gateway (itself a.spec.gateway)),
          resolve-state c gateway a.spec.gateway ns s,
          resolve-state c gateway a.spec.gateway ns t,
        )
        (
          resolve-Same c s t ns policy a.spec.policy
              (same policy a.spec.policy (itself a.spec.policy)),
          resolve-state c policy a.spec.policy ns s,
          resolve-state c policy a.spec.policy ns t,
        )
        (
          resolve_channels-Same c s t ns a.spec.channels (same channel),
          resolve_channels-state c a.spec.channels ns s,
          resolve_channels-state c a.spec.channels ns t,
        )
